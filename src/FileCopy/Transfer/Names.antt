-- ===== src/FileCopy/Transfer/Names.antt =====
-- p1/source/ncp.c and p1/source/rcv.c together, with the names that ncp.c sent before its first
-- window: it repeats the name until it is answered, and any of the repetitions may still arrive, in
-- any order, as long as ncp.c has not sent its last datagram. (One that arrives behind the last
-- datagram opens the file again.)
use cs2520_2021spring.Common.{
  Bool, suc, ℕ, ◌+◌, ◌*◌, ◌≤◌, ◌≡◌, ◌≢◌, refl, sym, ◌∙◌, inr, false, some, List, length, take,
  arith,
}
use cs2520_2021spring.Common.Int.{pos, negsuc, ◌==ℤ◌}
use cs2520_2021spring.Common.Bytes.{NoNul}
use cs2520_2021spring.Timeval.{Timeval}
use cs2520_2021spring.FileCopy.Message.{Message, Datagram, chunk_len}
use cs2520_2021spring.FileCopy.Buffer.{IsEnded}
use cs2520_2021spring.FileCopy.Sender.Ended.{HasEnd}
use cs2520_2021spring.FileCopy.Receiver
use cs2520_2021spring.FileCopy.Receiver.{Receiver}
use cs2520_2021spring.FileCopy.Receiver.Seated.{round-Seated}
use cs2520_2021spring.FileCopy.Transfer.{Link, World, Step, begin, received}
use cs2520_2021spring.FileCopy.Transfer.Invariant.{Inv, Step-Inv, received-Inv}
use cs2520_2021spring.FileCopy.Transfer.Prefix.{Greeted, begin-Inv, Written-take}
use cs2520_2021spring.FileCopy.Transfer.Live.{Live, Step-Live, begin-Live}

-- A repeated name: its number is 0, and the message that it fills ends in a NUL.
abbrev pub IsName : Datagram → Type 0
IsName d = (d.hdr.seq ≡ pos 0) × IsEnded 1359 d.payload

-- Rounds of the two programs, and rounds of the receiver that bring a late name.
pub data Course (link : Link) (w : World) : World → Type 0 where
  starts : Course link w w
  goes : {s t : World} → Course link w s → Step link s t → Course link w t
  named :
      {s : World}
      → Course link w s
      → (now clock : Timeval) (opened : Bool) (d : Datagram) (t : Receiver × List Receiver.Out)
      → s.finished ≡ false
      → IsName d
      → Receiver.round
          (record { now = now; sent = clock; opened = opened; arrival = some (link.peer, d) })
          s.receiver
        ≡ some t
      → Course link w (received t s)

not_zero : (n : ℕ) → pos 0 ≢ pos (suc n)
not_zero n e = absurd (ground (arith, e))

name-goes_on : (d : Datagram) → d.hdr.seq ≡ pos 0 → (d.hdr.seq ==ℤ negsuc 0) ≡ false
name-goes_on d e = rw e refl

module _ (content : List ℕ) (link : Link) (plain : NoNul content)
    (short : length link.echo_text ≤ 1359) where
  Course-Inv :
      {w t : World}
      → Inv content link.peer w
      → Live w
      → Course link w t
      → Inv content link.peer t × Live t
  Course-Inv v l starts = (v, l)
  Course-Inv v l (goes c s) =
      let (u, k) = Course-Inv v l c in
      (Step-Inv content link plain short s u, Step-Live content link s u k)
  Course-Inv v l (named {s} c now clock opened d t going name p) =
      let (u, k) = Course-Inv v l c in
      let (busy, ongoing) = k.seated going in
      (
        received-Inv content link plain short _ t s u
            (λ same n number. absurd (not_zero n (sym name.0 ∙ number)))
            (name.1, inr busy, u.session) p,
        record {
          full = k.full;
          seated = λ on.
              (round-Seated _ s.receiver t busy (u.session, name-goes_on d name.0) p, ongoing);
        },
      )

-- From the end of the first window on, for a file without NUL bytes, message buffers whose last byte
-- is a NUL, and an unwritten text behind the replies of at most 1359 bytes, whatever the network
-- loses, repeats, delays or reorders, and whichever names sent before arrive late, but for names
-- behind the sender's end: as long as the packets up to `C_ack` are whole blocks of the file, what the
-- receiver has written is exactly the first `1359 * C_ack` bytes of the file, and the sender has
-- released no packet that is not written.
pub file_is_prefix :
    (content : List ℕ) (link : Link) (mess : Message) (window : List Message) (greeted : Receiver)
    (w : World)
    → NoNul content
    → length link.echo_text ≤ 1359
    → length window ≡ 100
    → length mess.text ≡ 1360
    → HasEnd mess
    → Greeted link.peer greeted
    → Course link (begin mess window content greeted) w
    → chunk_len * w.receiver.c_ack ≤ length content
    → (w.receiver.file ≡ take (chunk_len * w.receiver.c_ack) content)
      × (w.sender.head ≤ w.receiver.c_ack + 1)
file_is_prefix content link mess window greeted w plain short hw hm he g course whole =
    let (v, l) =
      Course-Inv content link plain short
        (begin-Inv content link.peer mess window greeted hw hm he g)
        (begin-Live content link.peer mess window greeted hw hm g) course in
    (Written-take content w.receiver.c_ack w.receiver.file whole v.receiver.written, v.acked)
