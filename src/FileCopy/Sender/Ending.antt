-- ===== src/FileCopy/Sender/Ending.antt =====
-- p1/source/ncp.c: when the sender ends a transfer, and what a block with a NUL byte becomes.
use cs2520_2021spring.Common.{
  ap, ◌∙◌, ◌+◌, ℕ, ◌≤◌, ◌≡◌, refl, true, ◌⊎◌, some, arith, List, ◌∷◌, ◌++◌, drop,
}
use cs2520_2021spring.Common.Int.{pos, ◌≤ℤ◌}
use cs2520_2021spring.Common.Bytes.{cstr-append_nul, cstr, NoNul}
use cs2520_2021spring.FileCopy.Message.{Datagram, chunk_len}
use cs2520_2021spring.FileCopy.Sender.{
  read_chunk, stamp, keep, Sender, finished, is_done, finish, on_response, on_timeout, round, lossy,
  send_next,
}
use cs2520_2021spring.FileCopy.Sender.Invariant.{read-Carries, Inv, block}

-- A round that has a datagram to read ends the program only with at most one packet of the window
-- left, or, at the end of the file, on an acknowledgement of the last packet.
pub round_finished :
    (num : ℕ) (d : Datagram) (s : Sender)
    → (round num (some d) s).2 ≡ finished
    → (s.tail ≤ s.head) ⊎ ((s.eof ≡ true) × (pos s.tail ≤ℤ d.hdr.cack))
unfolding round on_response on_timeout finish is_done
round_finished num d s h = ground arith

-- From a sender with a right window, the first transmission of a block with a NUL byte carries only
-- what stands before that byte, and the next read starts behind the block.
pub send_next-cut :
    (content before behind : List ℕ) (s : Sender)
    → Inv content s
    → NoNul before
    → block content (s.tail + 1) ≡ before ++ 0 ∷ behind
    → ((d : Datagram) × ((send_next s).1 ≡ lossy d) × (d.payload ≡ before))
      × ((send_next s).0.source ≡ drop chunk_len s.source)
unfolding send_next keep stamp read_chunk
send_next-cut content before behind s v n e =
    let c = read-Carries content s.tail s v.rest v.next v.mess_len in
    ((_, refl, c.body ∙ ap cstr e ∙ cstr-append_nul before behind n), refl)
