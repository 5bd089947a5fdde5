-- ===== src/FileCopy/Transfer/Complete.antt =====
-- A transfer that has not finished can always be brought to the end of the file: answers make ncp.c read
-- on, and its timeouts bring rcv.c what it misses.
use cs2520_2021spring.Common.{
  ◌*◌, ap, ℕ, zero, suc, ◌+◌, ◌≤◌, ◌<◌, ◌≡◌, refl, sym, ◌∙◌, arith, true, false, Bool-cases,
  le_or_lt, inl, inr, some, List, [], ◌∷◌, length, length-drop,
}
use cs2520_2021spring.Common.Bytes.{NoNul}
use cs2520_2021spring.Timeval.{zero_time}
use cs2520_2021spring.FileCopy.Message.{Message, chunk_len}
use cs2520_2021spring.FileCopy.Sender
use cs2520_2021spring.FileCopy.Sender.{Sender}
use cs2520_2021spring.FileCopy.Sender.Ended.{HasEnd}
use cs2520_2021spring.FileCopy.Sender.Reads.{ReadOn, round-ReadOn}
use cs2520_2021spring.FileCopy.Receiver
use cs2520_2021spring.FileCopy.Receiver.{Receiver, timer_request}
use cs2520_2021spring.FileCopy.Receiver.Seated.{a_second_on, round-asks}
use cs2520_2021spring.FileCopy.Transfer.{
  Link, World, Step, answer, idle, Reach, here, later, begin, sent, received, is_finished, reply,
}
use cs2520_2021spring.FileCopy.Transfer.Invariant.{Inv, Reach-Inv}
use cs2520_2021spring.FileCopy.Transfer.Prefix.{Greeted, begin-Inv}
use cs2520_2021spring.FileCopy.Transfer.Progress.{catch_up}
use cs2520_2021spring.FileCopy.Transfer.Live.{Live, Reach-Live, begin-Live}

Reach-trans : {link : Link} {a b c : World} → Reach link a b → Reach link b c → Reach link a c
Reach-trans r here = r
Reach-trans r (later s x) = later (Reach-trans r s) x

module _ (content : List ℕ) (link : Link) (plain : NoNul content)
    (short : length link.echo_text ≤ 1359) where
  -- The states between rounds from which the transfer goes on.
  record Going (w : World) : Type 0 where
    inv : Inv content link.peer w
    live : Live w
    on : w.finished ≡ false

  Reach-Going : {w t : World} → Going w → Reach link w t → t.finished ≡ false → Going t
  Reach-Going g r on = record {
    inv = Reach-Inv content link plain short g.inv r;
    live = Reach-Live content link plain short g.inv g.live r;
    on = on;
  }

  -- The receiver's timer and the arrival of its request make the sender read on.
  ask :
      (w : World)
      → Going w
      → w.sender.eof ≡ false
      → w.sender.head ≤ w.receiver.c_ack
      → (t : World) × Reach link w t × Going t × ReadOn w.sender t.sender
  ask w g more h =
      let r = w.receiver in
      let x : Receiver × List Receiver.Out = (
        record r { echo = timer_request r; ack_timeout = zero_time },
        Receiver.lossy r.from_addr (timer_request r) ∷ [],
      ) in
      let first : Step link w (received x w) =
        idle (a_second_on r) zero_time true x
          (round-asks zero_time true r (g.live.seated g.on).0) in
      let answered = Sender.round 2 (some (reply link (timer_request r))) w.sender in
      let second : Step link (received x w) (sent answered (received x w)) =
        answer 2 w.to_sender [] (timer_request r) g.on refl in
      let (reads, goes) =
        round-ReadOn (reply link (timer_request r)) r.c_ack w.sender more refl h in
      let steps = later (later here first) second in
      (sent answered (received x w), steps, Reach-Going g steps (ap is_finished goes), reads)

  -- A receiver that misses one of at least two packets gets it.
  catch :
      (w : World)
      → Going w
      → w.sender.head < w.sender.tail
      → w.receiver.c_ack < w.sender.tail
      → (t : World) × Reach link w t
        × Going t
        × (w.receiver.c_ack < t.receiver.c_ack)
        × (t.sender ≡ w.sender)
  catch w g two missing =
      let (t, steps, more, same, on) =
        catch_up content link w plain short g.inv g.on (λ e. absurd (omega (arith, two, e)))
          (g.live.seated g.on).0 missing in
      (t, steps, Reach-Going g steps on, more, same)

  -- All packets of the window but the last one.
  catch_all :
      (n : ℕ) (w : World)
      → Going w
      → w.sender.tail < n + w.receiver.c_ack + 2
      → (t : World) × Reach link w t
        × Going t
        × (t.sender ≡ w.sender)
        × (t.sender.tail ≤ t.receiver.c_ack + 1)
  catch_all zero w g h = (w, here, g, refl, omega arith)
  catch_all (suc n) w g h = elim (le_or_lt w.sender.tail (w.receiver.c_ack + 1)) [
    | inl all ↦ (w, here, g, refl, all)
    | inr less ↦
        let (t, steps, u, more, same) =
          catch w g (omega (arith, less, g.inv.acked)) (omega (arith, less)) in
        let (z, steps2, u2, same2, done) =
          catch_all n t u (omega (arith, h, more, ap (λ (s : Sender). s.tail) same)) in
        (z, Reach-trans steps steps2, u2, same2 ∙ same, done)
  ]

  -- Before the end of the file the window is full, so that the receiver can catch up with `head`.
  acknowledged :
      (w : World)
      → Going w
      → w.sender.eof ≡ false
      → (t : World) × Reach link w t
        × Going t
        × (t.sender ≡ w.sender)
        × (w.sender.head ≤ t.receiver.c_ack)
  acknowledged w g more = elim (le_or_lt w.sender.head w.receiver.c_ack) [
    | inl enough ↦ (w, here, g, refl, enough)
    | inr less ↦
        let full = g.live.full.0 more in
        let (t, steps, u, further, same) =
          catch w g (omega (arith, full)) (omega (arith, full, less)) in
        (t, steps, u, same, omega (arith, further, g.inv.acked))
  ]

  read_all :
      (n : ℕ) (w : World)
      → Going w
      → length w.sender.source < n
      → (t : World) × Reach link w t × Going t × (t.sender.eof ≡ true)
  read_all zero w g h = absurd (omega arith)
  read_all (suc n) w g h = elim (Bool-cases w.sender.eof) [
    | inl over ↦ (w, here, g, over)
    | inr more ↦
        let (t, steps, u, same, enough) = acknowledged w g more in
        let (z, steps2, u2, reads) =
          ask t u (ap (λ (s : Sender). s.eof) same ∙ more)
            (omega (arith, enough, ap (λ (s : Sender). s.head) same)) in
        elim reads [
          | inl over ↦ (z, Reach-trans steps steps2, u2, over)
          | inr less ↦
              let (y, steps3, u3, over) =
                read_all n z u2
                  (omega (arith, h, less, ap (λ (s : Sender). length s.source) same)) in
              (y, Reach-trans steps (Reach-trans steps2 steps3), u3, over)
        ]
  ]

  all_read :
      (w : World) → Going w → w.sender.eof ≡ true → length content ≤ chunk_len * w.sender.tail
  all_read w g over = omega (
    arith,
    sym (ap (λ xs. length xs) g.inv.sender.rest) ∙ g.live.full.1 over,
    length-drop {0} (chunk_len * w.sender.tail) content,
  )

  pub to_the_end :
      (w : World)
      → Inv content link.peer w
      → Live w
      → w.finished ≡ false
      → (t : World) × Reach link w t
        × (t.finished ≡ false)
        × (length content ≤ chunk_len * t.sender.tail)
        × (t.sender.tail ≤ t.receiver.c_ack + 1)
  to_the_end w v l on =
      let (t, steps, u, over) =
        read_all (length w.sender.source + 1) w (record { inv = v; live = l; on = on })
          (omega arith) in
      let (z, steps2, u2, same, done) = catch_all t.sender.tail t u (omega arith) in
      (
        z,
        Reach-trans steps steps2,
        u2.on,
        all_read z u2 (ap (λ (s : Sender). s.eof) same ∙ over),
        done,
      )

-- For a file without NUL bytes, message buffers whose last byte is a NUL, and an unwritten text behind the
-- replies of at most 1359 bytes: from every state that the transfer reaches, whatever the network has lost,
-- repeated, delayed or reordered, before the sender finishes there is a run to a state where the sender
-- has not finished, the packets up to its `tail` hold the whole file, and the receiver has written them all
-- but for at most the last one.
pub can_complete :
    (content : List ℕ) (link : Link) (mess : Message) (window : List Message) (greeted : Receiver)
    (w : World)
    → NoNul content
    → length link.echo_text ≤ 1359
    → length window ≡ 100
    → length mess.text ≡ 1360
    → HasEnd mess
    → Greeted link.peer greeted
    → Reach link (begin mess window content greeted) w
    → w.finished ≡ false
    → (t : World) × Reach link w t
      × (t.finished ≡ false)
      × (length content ≤ chunk_len * t.sender.tail)
      × (t.sender.tail ≤ t.receiver.c_ack + 1)
can_complete content link mess window greeted w plain short hw hm he g reach on =
    let v = begin-Inv content link.peer mess window greeted hw hm he g in
    let l = begin-Live content link.peer mess window greeted hw hm g in
    to_the_end content link plain short w (Reach-Inv content link plain short v reach)
      (Reach-Live content link plain short v l reach) on
