-- ===== src/FileCopy/Receiver/Expected.antt =====
-- p1/source/rcv.c: a packet of the session that is the expected one moves `C_ack` on.
use cs2520_2021spring.Common.{
  ℕ, ◌+◌, ◌<◌, ◌≡◌, ◌≢◌, refl, sym, ◌∙◌, ap, if-ind, Bool, true, false, some, List, arith, ◌==◌,
}
use cs2520_2021spring.Common.Int.{pos, negsuc, ◌==ℤ◌}
use cs2520_2021spring.Timeval.{Timeval, zero_time}
use cs2520_2021spring.FileCopy.Message.{Datagram, Addr, same_addr}
use cs2520_2021spring.FileCopy.Receiver.{
  timer_due, Receiver, Out, check_timer, on_data, receive, on_arrival, round, arrive, deliver_alone,
  deliver_and_drain, acknowledge, write_current, account,
}
use cs2520_2021spring.FileCopy.Receiver.Delivery.{after-eq-some, state_of}
use cs2520_2021spring.FileCopy.Receiver.Frame.{drain-frame}

same_number : (n : ℕ) → (pos n ==ℤ pos n) ≡ true
same_number n = ground arith

deliver_alone-further : (r : Receiver) → r.c_ack < (deliver_alone r).0.c_ack
unfolding deliver_alone acknowledge write_current account
deliver_alone-further r = omega arith

deliver_and_drain-further : (r : Receiver) → r.c_ack < (deliver_and_drain r).0.c_ack
unfolding deliver_and_drain acknowledge
deliver_and_drain-further r =
    let d =
      drain-frame 99 (r.c_ack + 2) (record (write_current (account r)) { c_ack = r.c_ack + 1 }) in
    omega (arith, d.1)

abbrev Further : ℕ → Receiver × List Out → Type 0
Further c t = c < t.0.c_ack

true_not_false : true ≢ false
true_not_false e = cc

on_data-expected :
    (r : Receiver) → r.mess.hdr.seq ≡ pos (r.c_ack + 1) → r.c_ack < (on_data r).0.c_ack
unfolding on_data
on_data-expected r e =
    let s : Receiver = record r { ack_timeout = zero_time } in
    if-ind (Further r.c_ack) (r.mess.hdr.seq ==ℤ pos (r.c_ack + 1)) _ _
      (λ _.
        if-ind (Further r.c_ack) (s.buffersize == 0) _ _ (λ _. deliver_alone-further s)
          (λ _. deliver_and_drain-further s))
      (λ no. absurd (
        true_not_false
          (sym (ap (λ n. n ==ℤ pos (r.c_ack + 1)) e ∙ same_number (r.c_ack + 1)) ∙ no)))

pub receive_data :
    (opened : Bool) (from : Addr) (d : Datagram) (r : Receiver)
    → r.has_sender ≡ true
    → same_addr r.current from ≡ true
    → (d.hdr.seq ==ℤ negsuc 0) ≡ false
    → receive opened from d r ≡ some (on_data (arrive from d r))
unfolding receive
receive_data opened from d r busy same more = rw (busy, same, more) refl

pub check_timer-same :
    (now clock : Timeval) (r : Receiver)
    → let t = (check_timer now clock r).0 in
      (t.has_sender ≡ r.has_sender) × (t.current ≡ r.current) × (t.c_ack ≡ r.c_ack)
unfolding check_timer
check_timer-same now clock r =
    if-ind
      (λ (t : Receiver × List Out).
        (t.0.has_sender ≡ r.has_sender) × (t.0.current ≡ r.current) × (t.0.c_ack ≡ r.c_ack))
      (timer_due now r) _ _ (λ _. (refl, refl, refl)) (λ _. (refl, refl, refl))

not_last : (n : ℕ) → (pos n ==ℤ negsuc 0) ≡ false
not_last n = ground arith

-- The expected packet, in a session, moves `C_ack` on.
pub round-expected :
    (now clock : Timeval) (opened : Bool) (from : Addr) (d : Datagram) (r t : Receiver)
    (out : List Out)
    → r.has_sender ≡ true
    → same_addr r.current from ≡ true
    → d.hdr.seq ≡ pos (r.c_ack + 1)
    → round (record { now = now; sent = clock; opened = opened; arrival = some (from, d) }) r
      ≡ some (t, out)
    → r.c_ack < t.c_ack
unfolding round on_arrival
round-expected now clock opened from d r t out busy same e p =
    let c = check_timer now clock r in
    let (b, k, a) = check_timer-same now clock r in
    let (m, g) = after-eq-some c.1 (receive opened from d c.0) p in
    let h = receive_data opened from d c.0 (b ∙ busy) (rw k same) (rw e (not_last (r.c_ack + 1))) in
    let f = on_data-expected (arrive from d c.0) (e ∙ ap (λ n. pos (n + 1)) (sym a)) in
    omega (arith, f, a, ap (λ (x : Receiver). x.c_ack) (state_of (sym h ∙ g)))
