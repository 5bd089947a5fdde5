-- ===== src/FileCopy/Transfer/Progress.antt =====
-- A transfer that has not come to its end can always go on: the timeout of ncp.c and one delivery are
-- enough to bring rcv.c its next packet.
use cs2520_2021spring.Common.{
  All, All-middle, inr, inl, dec_eq, ℕ, zero, suc, ◌+◌, ◌-◌, ◌%◌, ◌≤◌, ◌<◌, ◌≡◌, ◌≢◌, refl, sym,
  ◌∙◌, ap, subst, true, false, none, some, List, [], ◌∷◌, ◌++◌, length, get_or, map, arith, ◌==◌,
  append_assoc,
}
use cs2520_2021spring.Common.Bytes.{NoNul}
use cs2520_2021spring.Timeval.{zero_time}
use cs2520_2021spring.FileCopy.Message.{Datagram}
use cs2520_2021spring.FileCopy.Sender
use cs2520_2021spring.FileCopy.Sender.{Sender, resend_window, on_timeout, whole_datagram, blank}
use cs2520_2021spring.FileCopy.Receiver.Frame.{round-Frame}
use cs2520_2021spring.FileCopy.Receiver.Expected.{round-expected}
use cs2520_2021spring.FileCopy.Transfer.{
  is_finished, Link, World, Step, Reach, here, later, tick, deliver, sent, received, datagram_of,
}
use cs2520_2021spring.FileCopy.Transfer.Invariant.{Inv, Sent, Step-Inv, Sent-Brings}

abbrev slot_datagram : Sender → ℕ → Datagram
slot_datagram s i = whole_datagram (get_or s.window (i % 100) blank)

-- A window that is sent again has each of its packets.
resend_window-has :
    (n i k : ℕ) (s : Sender)
    → i ≤ k
    → k < i + n
    → (before : List Datagram) × (after : List Datagram) × (map datagram_of (resend_window n i s)
        ≡ before ++ slot_datagram s k ∷ after)
unfolding resend_window
resend_window-has zero i k s lo hi = absurd (omega arith)
resend_window-has (suc n) i k s lo hi = elim (dec_eq i k) [
  | inl p ↦ (
    [],
    map datagram_of (resend_window n (i + 1) s),
    ap (λ j. slot_datagram s j ∷ map datagram_of (resend_window n (i + 1) s)) p,
  )
  | inr q ↦
      let (before, after, e) = resend_window-has n (i + 1) k s (omega arith) (omega arith) in
      (slot_datagram s i ∷ before, after, ap (λ t. slot_datagram s i ∷ t) e)
]

not_equal : (a b : ℕ) → a ≢ b → (a == b) ≡ false
not_equal a b ne = ground arith

timeout_sends :
    (s : Sender)
    → s.head ≢ s.tail
    → Sender.round 0 none s ≡ (s, resend_window (s.tail + 1 - s.head) s.head s, Sender.go_on)
unfolding on_timeout Sender.round
timeout_sends s ne = rw (not_equal s.head s.tail ne) refl

-- For a file without NUL bytes and an unwritten text behind the replies of at most 1359 bytes: from a
-- state with the joint invariant at which the sender has not finished and waits for more than one
-- packet, and the receiver is in its session and misses a packet of the sender's window, the sender's
-- timeout and the arrival of a packet that it sends move `C_ack` on.
pub catch_up :
    (content : List ℕ) (link : Link) (w : World)
    → NoNul content
    → length link.echo_text ≤ 1359
    → Inv content link.peer w
    → w.finished ≡ false
    → w.sender.head ≢ w.sender.tail
    → w.receiver.has_sender ≡ true
    → w.receiver.c_ack < w.sender.tail
    → (t : World) × Reach link w t
      × (w.receiver.c_ack < t.receiver.c_ack)
      × (t.sender ≡ w.sender)
      × (t.finished ≡ false)
catch_up content link w plain short v going two busy missing =
    let s = w.sender in
    let k = w.receiver.c_ack + 1 in
    let d = slot_datagram s k in
    let r = Sender.round 0 none s in
    let w1 = sent r w in
    let first : Step link w w1 = tick 0 going in
    let v1 = Step-Inv content link plain short first v in
    let (before, after, e) =
      resend_window-has (s.tail + 1 - s.head) s.head k s v.acked (omega (arith, v.acked)) in
    let split : w1.to_receiver ≡ (w.to_receiver ++ before) ++ d ∷ after =
      ap (λ (x : Sender.Result). w.to_receiver ++ map datagram_of x.1) (timeout_sends s two)
      ∙ ap (λ t. w.to_receiver ++ t) e
      ∙ sym (append_assoc w.to_receiver before (d ∷ after)) in
    let c = v.sender.slots k (omega arith) v.acked (omega arith) in
    let here_it_is =
      All-middle (Sent content w1.sender.tail) (w.to_receiver ++ before) after d
        (subst (All (Sent content w1.sender.tail)) split v1.packets) in
    let (x, p, f) =
      round-Frame
        (record { now = zero_time; sent = zero_time; opened = true; arrival = some (link.peer, d) })
        w1.receiver v1.ready (Sent-Brings content link plain short w1 d v1 here_it_is) in
    (
      received x w1,
      later (later here first)
          (deliver zero_time zero_time true (w.to_receiver ++ before) after d x split p),
      round-expected zero_time zero_time true link.peer d w.receiver x.0 x.1 busy v.session c.number
          p,
      ap (λ (y : Sender.Result). y.0) (timeout_sends s two),
      ap (λ (y : Sender.Result). is_finished y.2) (timeout_sends s two),
    )
