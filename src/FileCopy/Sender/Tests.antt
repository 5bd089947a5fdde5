-- ===== src/FileCopy/Sender/Tests.antt =====
-- Runs of p1/source/ncp.c on small files.
use cs2520_2021spring.Common.{
  ◌%◌, get_or, Bool, ℕ, ◌≤◌, ◌≡◌, refl, subst, true, false, some, List, [], ◌∷◌, ◌++◌, arith, All,
  replicate, drop, ◌⊎◌, set,
}
use cs2520_2021spring.Common.Int.{ℤ, pos, negsuc, ◌≤ℤ◌}
use cs2520_2021spring.Common.Bytes.{cstr}
use cs2520_2021spring.FileCopy.Message.{Header, Message, Datagram, chunk_len}
use cs2520_2021spring.FileCopy.Sender.{
  is_done, finish, on_response, Sender, blank, round, finished, lossy, send_next,
}
use cs2520_2021spring.FileCopy.Sender.Invariant.{Inv, Carries, Truthful}
use cs2520_2021spring.FileCopy.Sender.Rounds.{round-Sound}
use cs2520_2021spring.FileCopy.Sender.Ending.{round_finished, send_next-cut}

abbrev header : ℤ → Header
header n = record { cack = pos 0; nack = pos 1 ∷ negsuc 0 ∷ []; seq = n }

abbrev packet : ℤ → List ℕ → Message
packet n text = record { hdr = header n; text = text ++ replicate 1358 0 }

abbrev content : List ℕ
content = 97 ∷ 0 ∷ 98 ∷ []

-- The packet 1 is sent and not acknowledged.
abbrev waiting_at : Bool → Sender
waiting_at over = record {
  head = 1;
  tail = 1;
  seq = 2;
  eof = over;
  window = set (replicate 100 blank) 1 (packet (pos 1) (97 ∷ 0 ∷ []));
  mess = packet (pos 1) (97 ∷ 0 ∷ []);
  source = drop chunk_len content;
  totalbytes = 3;
  i_tmb = 0;
}

abbrev waiting : Sender
waiting = waiting_at true

waiting-Inv : (over : Bool) → Inv content (waiting_at over)
unfolding cstr
waiting-Inv over = record {
  next = refl;
  span = omega arith;
  rest = refl;
  window_len = refl;
  mess_len = refl;
  slots = λ i low lo hi.
      let one : 1 ≡ i = omega arith in
      subst (λ k. Carries content k (get_or (waiting_at over).window (k % 100) blank)) one
        (record { number = refl; body = refl });
}

abbrev request : Datagram
request = record { hdr = header (pos 0); payload = [] }

round-Sound_example :
    let r = round 2 (some request) (waiting_at false) in
    Inv content r.0 × All (Truthful content r.0.tail) r.1
round-Sound_example =
    round-Sound content 2 (some request) (waiting_at false) (waiting-Inv false) (omega arith)

waiting-ends : (round 2 (some request) waiting).2 ≡ finished
unfolding round on_response finish is_done
waiting-ends = ground arith

round_finished_example :
    (waiting.tail ≤ waiting.head) ⊎ ((waiting.eof ≡ true) × (pos waiting.tail ≤ℤ request.hdr.cack))
round_finished_example = round_finished 2 request waiting waiting-ends

-- Before the packet 1 is read.
abbrev fresh : Sender
fresh = record waiting { tail = 0; seq = 1; source = content; eof = false }

fresh-Inv : Inv content fresh
fresh-Inv = record {
  next = refl;
  span = omega arith;
  rest = refl;
  window_len = refl;
  mess_len = refl;
  slots = λ i low lo hi. absurd (omega arith);
}

send_next-cut_example :
    ((d : Datagram) × ((send_next fresh).1 ≡ lossy d) × (d.payload ≡ 97 ∷ []))
    × ((send_next fresh).0.source ≡ drop chunk_len content)
send_next-cut_example =
    send_next-cut content (97 ∷ []) (98 ∷ []) fresh fresh-Inv (λ e. absurd (omega (arith, e)), tt)
      refl
