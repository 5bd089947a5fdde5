-- ===== src/FileCopy/Receiver/Seated.antt =====
-- p1/source/rcv.c: only the last datagram of a session ends it, and the timer asks for what is missing.
use cs2520_2021spring.Common.{
  ap, ◌&&◌, ℕ, zero, suc, ◌+◌, ◌%◌, ◌≡◌, refl, sym, ◌∙◌, Bool, true, false, ltb, ◌==◌, if-ind,
  Option, none, some, List, [], ◌∷◌, get_or,
}
use cs2520_2021spring.Common.Int.{ℤ, pos, negsuc, pos_part, leb_ℤ, ◌==ℤ◌, ◌+ℤ◌, ◌-ℤ◌, int_laws}
use cs2520_2021spring.Timeval.{Timeval, timersub, zero_time}
use cs2520_2021spring.FileCopy.Message.{Datagram, Addr, same_addr, window_size}
use cs2520_2021spring.FileCopy.Receiver.{
  Receiver, Out, lossy, Round, timer_due, timer_request, check_timer, account, write_current,
  acknowledge, deliver_alone, take_buffered, drain, deliver_and_drain, may_request, request_missing,
  store_early, buffer_early, on_data, arrive, on_arrival, round,
}
use cs2520_2021spring.FileCopy.Receiver.Delivery.{state_of, after-eq-some}
use cs2520_2021spring.FileCopy.Receiver.Expected.{check_timer-same, receive_data}

-- The session goes on, or there is still none.
abbrev Seated : Receiver → Receiver × List Out → Type 0
Seated r x = x.0.has_sender ≡ r.has_sender

drain-Seated : (n j : ℕ) (r : Receiver) → (drain n j r).has_sender ≡ r.has_sender
unfolding drain take_buffered account
drain-Seated zero j r = refl
drain-Seated (suc n) j r =
    if-ind (λ (t : Receiver). t.has_sender ≡ r.has_sender)
      (ltb 0 r.buffersize && get_or r.buffer (j % window_size) 0 == 1) _ _
      (λ _. drain-Seated n (j + 1) (take_buffered j r)) (λ _. refl)

deliver_and_drain-Seated : (r : Receiver) → Seated r (deliver_and_drain r)
unfolding deliver_and_drain acknowledge write_current account
deliver_and_drain-Seated r =
    drain-Seated 99 (r.c_ack + 2) (record (write_current (account r)) { c_ack = r.c_ack + 1 })

request_missing-Seated : (seq : ℕ) (r : Receiver) → Seated r (request_missing seq r)
unfolding request_missing
request_missing-Seated seq r = if-ind (Seated r) (may_request r) _ _ (λ _. refl) (λ _. refl)

buffer_early-Seated : (seq : ℕ) (r : Receiver) → Seated r (buffer_early seq r)
unfolding buffer_early store_early
buffer_early-Seated seq r =
    if-ind (Seated r) (get_or r.buffer (seq % window_size) 0 == 0) _ _
      (λ _. request_missing-Seated seq (store_early seq r)) (λ _. refl)

on_data-Seated : (r : Receiver) → Seated r (on_data r)
unfolding on_data deliver_alone acknowledge write_current account
on_data-Seated r =
    let s : Receiver = record r { ack_timeout = zero_time } in
    if-ind (Seated r) (s.mess.hdr.seq ==ℤ pos (s.c_ack + 1)) _ _
      (λ _. if-ind (Seated r) (s.buffersize == 0) _ _ (λ _. refl) (λ _. deliver_and_drain-Seated s))
      (λ _.
        if-ind (Seated r)
          (leb_ℤ (pos (s.c_ack + 2)) s.mess.hdr.seq
            && leb_ℤ s.mess.hdr.seq (pos (s.c_ack + 1 + window_size)))
          _ _ (λ _. buffer_early-Seated (pos_part s.mess.hdr.seq) s) (λ _. refl))

-- What the session's sender brings before the end: nothing, or a datagram that is not the last.
abbrev pub NotLast : Receiver → Option (Addr × Datagram) → Type 0
NotLast r none = Unit
NotLast r (some (from, d)) = (same_addr r.current from ≡ true) × ((d.hdr.seq ==ℤ negsuc 0) ≡ false)

NotLast-current :
    (r s : Receiver) (o : Option (Addr × Datagram))
    → s.current ≡ r.current
    → NotLast r o
    → NotLast s o
NotLast-current r s none k h = tt
NotLast-current r s (some (from, d)) k h = (rw k h.0, h.1)

on_arrival-Seated :
    (opened : Bool) (o : Option (Addr × Datagram)) (s : Receiver) (y : Receiver × List Out)
    → s.has_sender ≡ true
    → NotLast s o
    → on_arrival opened o s ≡ some y
    → y.0.has_sender ≡ true
unfolding on_arrival
on_arrival-Seated opened none s y h n q = sym (ap (λ (t : Receiver). t.has_sender) (state_of q)) ∙ h
on_arrival-Seated opened (some (from, d)) s y h (same, more) q =
    let e = state_of (sym (receive_data opened from d s h same more) ∙ q) in
    sym (ap (λ (t : Receiver). t.has_sender) e) ∙ on_data-Seated (arrive from d s) ∙ h

-- Such a round does not end the session.
pub round-Seated :
    (e : Round) (r : Receiver) (x : Receiver × List Out)
    → r.has_sender ≡ true
    → NotLast r e.arrival
    → round e r ≡ some x
    → x.0.has_sender ≡ true
unfolding round
round-Seated e r x busy brings p =
    let c = check_timer e.now e.sent r in
    let (b, k, a) = check_timer-same e.now e.sent r in
    let (m, g) = after-eq-some c.1 (on_arrival e.opened e.arrival c.0) p in
    on_arrival-Seated e.opened e.arrival c.0 (x.0, m) (b ∙ busy)
      (NotLast-current r c.0 e.arrival k brings) g

-- A second after the start of the timer.
abbrev pub a_second_on : Receiver → Timeval
a_second_on r = record { sec = r.ack_timeout.sec +ℤ pos 1; usec = r.ack_timeout.usec }

sub_self_ℤ : (a : ℤ) → a -ℤ a ≡ pos 0
sub_self_ℤ a = omega int_laws

add-sub_ℤ : (a : ℤ) → (a +ℤ pos 1) -ℤ a ≡ pos 1
add-sub_ℤ a = omega int_laws

-- In a session, a second after the start of the timer the receiver asks for the packet that it misses, and
-- acknowledges those that it has.
pub round-asks :
    (clock : Timeval) (opened : Bool) (r : Receiver)
    → r.has_sender ≡ true
    → round (record { now = a_second_on r; sent = clock; opened = opened; arrival = none }) r
      ≡ some (
        record r { echo = timer_request r; ack_timeout = clock },
        lossy r.from_addr (timer_request r) ∷ [],
      )
unfolding round on_arrival check_timer timer_due timersub
round-asks clock opened r busy =
    rw (sub_self_ℤ r.ack_timeout.usec, add-sub_ℤ r.ack_timeout.sec, busy) refl
