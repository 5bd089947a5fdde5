-- ===== src/FileCopy/Receiver/Replies.antt =====
-- p1/source/rcv.c: what the receiver tells its senders, and when.
use cs2520_2021spring.Common.{
  ℕ, zero, suc, ◌+◌, ◌%◌, ◌≤◌, ◌≡◌, refl, Bool, true, false, ◌&&◌, some, [], ◌∷◌, length, get_or,
  arith, ltb, drop, ◌++◌, ◌==◌, if◌then◌else◌,
}
use cs2520_2021spring.Common.Int.{pos_part, ◌-ℤ◌, ℤ, pos, negsuc, ◌≤ℤ◌}
use cs2520_2021spring.Common.Bytes.{overwrite, cstr, NoNul, cstr-overwrite_unterminated}
use cs2520_2021spring.Timeval.{Timeval, timersub}
use cs2520_2021spring.FileCopy.Message.{Datagram, Addr, same_addr, window_size}
use cs2520_2021spring.FileCopy.Receiver.{
  store_early, request_missing, take_buffered, account, drain, zero_time, timersub, Receiver,
  check_timer, decline, on_data, receive, timer_due, arrive, nack_request, fill_nacks, buffer_early,
  deliver_alone, deliver_and_drain, lossy, direct, write_current,
}

-- The request for the place `i` behind `C_ack + 1`: the packet is named if it is missing and lies
-- before the one that arrived.
abbrev pub ask : ℕ → ℕ → Receiver → ℤ
ask i seq r =
    if ltb (r.c_ack + 1 + i) seq && get_or r.buffer ((r.c_ack + 1 + i) % window_size) 0 == 0
    then pos (r.c_ack + 1 + i)
    else negsuc 0

-- A request names the expected packet and, of the two behind it, each that is missing and lies
-- before the packet that arrived; it names no other packet.
pub nack_request_lem :
    (seq : ℕ) (r : Receiver)
    → (nack_request seq r).nack ≡ pos (r.c_ack + 1) ∷ ask 1 seq r ∷ ask 2 seq r ∷ []
unfolding nack_request fill_nacks
nack_request_lem seq r = ground arith

-- The search touches neither the session flag nor the timer.
drain-frame :
    (n j : ℕ) (r : Receiver)
    → ((drain n j r).has_sender ≡ r.has_sender) × ((drain n j r).ack_timeout ≡ r.ack_timeout)
unfolding drain take_buffered
drain-frame zero j r = (refl, refl)
drain-frame (suc n) j r = ground (arith, drain-frame n (j + 1) (take_buffered j r))

buffer_early-frame :
    (seq : ℕ) (r : Receiver)
    → ((buffer_early seq r).0.has_sender ≡ r.has_sender)
      × ((buffer_early seq r).0.ack_timeout ≡ r.ack_timeout)
unfolding buffer_early request_missing store_early
buffer_early-frame seq r = ground arith

deliver-frame :
    (r : Receiver)
    → ((deliver_and_drain r).0.has_sender ≡ r.has_sender)
      × ((deliver_and_drain r).0.ack_timeout ≡ r.ack_timeout)
unfolding deliver_and_drain
deliver-frame r =
    drain-frame 99 (r.c_ack + 2) (record (write_current (account r)) { c_ack = r.c_ack + 1 })

deliver_alone-frame :
    (r : Receiver)
    → ((deliver_alone r).0.has_sender ≡ r.has_sender)
      × ((deliver_alone r).0.ack_timeout ≡ r.ack_timeout)
unfolding deliver_alone
deliver_alone-frame r = (refl, refl)

on_data-frame :
    (r : Receiver)
    → ((on_data r).0.has_sender ≡ r.has_sender) × ((on_data r).0.ack_timeout ≡ zero_time)
unfolding on_data
on_data-frame r =
    let s : Receiver = record r { ack_timeout = zero_time } in
    ground (
      arith,
      deliver_alone-frame s,
      deliver-frame s,
      buffer_early-frame (pos_part r.mess.hdr.seq) s,
    )

-- After any packet of the session that does not end it the timer is due at once: its start is set to
-- the year 1970, so that every clock two seconds past it is late.
pub timer_due-on_data :
    (now : Timeval) (r : Receiver)
    → r.has_sender ≡ true
    → pos 2 ≤ℤ now.sec
    → timer_due now (on_data r).0 ≡ true
unfolding timer_due timersub ◌-ℤ◌
timer_due-on_data now r busy late = ground (arith, on_data-frame r)

-- A packet from another address than the session's is refused: of all that the receiver keeps, only the
-- address and the message that it last read and the reply's header change. If the timer is due then, its
-- request goes to that address, with the acknowledgement `C_ack`, and only the header and the timer's start
-- change.
pub request_after_intruder :
    (opened : Bool) (from : Addr) (d : Datagram) (now sent : Timeval) (r : Receiver)
    → r.has_sender ≡ true
    → same_addr r.current from ≡ false
    → timer_due now (decline from (arrive from d r)).0 ≡ true
    → let t = decline from (arrive from d r) in
      let request = check_timer now sent t.0 in
      (receive opened from d r ≡ some t)
      × (t.1 ≡ direct from (record r.echo { cack = negsuc 0 }) ∷ [])
      × (t.0 ≡ record r {
        from_addr = from;
        mess = record { hdr = d.hdr; text = overwrite r.mess.text d.payload };
        echo = record r.echo { cack = negsuc 0 };
      })
      × (request.1 ≡ lossy from request.0.echo ∷ [])
      × (request.0.echo.cack ≡ pos r.c_ack)
      × (request.0 ≡ record t.0 { echo = request.0.echo; ack_timeout = sent })
unfolding receive decline check_timer
request_after_intruder opened from d now sent r busy other due =
    (ground arith, refl, refl, rw due refl, rw due refl, rw due refl)

-- A text without a NUL, received into a buffer that is at least as long, is written together with what
-- the buffer held behind it, up to its first NUL.
pub write_current-stale :
    (from : Addr) (d : Datagram) (r : Receiver)
    → NoNul d.payload
    → length d.payload ≤ length r.mess.text
    → (write_current (arrive from d r)).file
      ≡ r.file ++ (d.payload ++ cstr (drop (length d.payload) r.mess.text))
unfolding write_current
write_current-stale from d r n h = rw (cstr-overwrite_unterminated r.mess.text d.payload n h)
