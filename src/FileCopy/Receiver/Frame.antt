-- ===== src/FileCopy/Receiver/Frame.antt =====
-- p1/source/rcv.c: what a round with a packet of the session's sender leaves as it was, how far `C_ack`
-- moves, and what the replies acknowledge.
use cs2520_2021spring.Common.{
  ◌⊎◌, ℕ, zero, suc, ◌+◌, ◌%◌, ◌≤◌, ◌≡◌, refl, sym, ◌∙◌, ap, subst, if-ind, Bool, true, false,
  Bool-cases, inl, inr, Option, none, some, List, [], ◌∷◌, ◌++◌, length, get_or, All, All-append,
  arith, ltb, ◌==◌, ◌&&◌,
}
use cs2520_2021spring.Common.Int.{ℤ, pos, negsuc, pos_part, ◌≤ℤ◌, leb_ℤ, ◌==ℤ◌}
use cs2520_2021spring.Common.Bytes.{length-overwrite}
use cs2520_2021spring.Timeval.{Timeval, zero_time}
use cs2520_2021spring.FileCopy.Message.{Message, Datagram, Addr, same_addr, window_size}
use cs2520_2021spring.FileCopy.Buffer.{IsEnded, overwrite-IsEnded, bzero-IsEnded, length-bzero}
use cs2520_2021spring.FileCopy.Receiver.{
  timer_due, may_request, Receiver, Out, lossy, direct, Round, check_timer, on_data, receive,
  on_arrival, round, arrive, drain, take_buffered, deliver_alone, deliver_and_drain, buffer_early,
  request_missing, store_early, acknowledge, write_current, account, nack_request,
}

-- The receive buffer has the length of a whole text, and is ended behind a block.
pub record Ready (r : Receiver) : Type 0 where
  pub len : length r.mess.text ≡ 1360
  pub ended : IsEnded 1359 r.mess.text

abbrev pub cack_of : Out → ℤ
cack_of (lossy to h) = h.cack
cack_of (direct to h) = h.cack

-- No reply acknowledges more than the packets up to `c`.
abbrev pub Below : ℕ → Out → Type 0
Below c o = cack_of o ≤ℤ pos c

-- The session goes on, with the same sender; no packet is taken back.
pub record Frame (r : Receiver) (t : Receiver × List Out) : Type 0 where
  pub current : t.0.current ≡ r.current
  pub further : r.c_ack ≤ t.0.c_ack
  pub ready : Ready t.0
  pub replies : All (Below t.0.c_ack) t.1

pub drain-frame :
    (n j : ℕ) (r : Receiver)
    → ((drain n j r).current ≡ r.current)
      × (r.c_ack ≤ (drain n j r).c_ack)
      × ((drain n j r).mess ≡ r.mess)
unfolding drain take_buffered account
drain-frame zero j r = (refl, omega arith, refl)
drain-frame (suc n) j r =
    let ih = drain-frame n (j + 1) (take_buffered j r) in
    if-ind (λ (t : Receiver). (t.current ≡ r.current) × (r.c_ack ≤ t.c_ack) × (t.mess ≡ r.mess))
      (ltb 0 r.buffersize && get_or r.buffer (j % window_size) 0 == 1) _ _
      (λ _. (ih.0, omega (arith, ih.1), ih.2)) (λ _. (refl, omega arith, refl))

bzero-Ready : (r : Receiver) → Ready r → Ready (write_current r)
unfolding write_current
bzero-Ready r v = record {
  len = length-bzero 8 r.mess.text ∙ v.len;
  ended = bzero-IsEnded 8 1359 r.mess.text (omega arith) v.ended;
}

deliver_alone-Frame : (r : Receiver) → Ready r → Frame r (deliver_alone r)
unfolding deliver_alone acknowledge write_current account
deliver_alone-Frame r v =
    let w = bzero-Ready r v in
    record {
      current = refl;
      further = omega arith;
      ready = record { len = w.len; ended = w.ended };
      replies = (omega arith, tt);
    }

deliver_and_drain-Frame : (r : Receiver) → Ready r → Frame r (deliver_and_drain r)
unfolding deliver_and_drain acknowledge write_current account
deliver_and_drain-Frame r v =
    let w = bzero-Ready r v in
    let s = record (write_current (account r)) { c_ack = r.c_ack + 1 } in
    let d = drain-frame 99 (r.c_ack + 2) s in
    record {
      current = d.0;
      further = omega (arith, d.1);
      ready = record {
        len = ap (λ (m : Message). length m.text) d.2 ∙ w.len;
        ended = subst (λ (m : Message). IsEnded 1359 m.text) (sym d.2) w.ended;
      };
      replies = (omega arith, tt);
    }

same-Frame :
    (r t : Receiver) (out : List Out)
    → Ready r
    → t.current ≡ r.current
    → t.c_ack ≡ r.c_ack
    → t.mess ≡ r.mess
    → All (Below t.c_ack) out
    → Frame r (t, out)
same-Frame r t out v c k m b = record {
  current = c;
  further = omega arith;
  ready = record { len = rw m v.len; ended = rw m v.ended };
  replies = b;
}

request_missing-Frame : (seq : ℕ) (r : Receiver) → Ready r → Frame r (request_missing seq r)
unfolding request_missing nack_request
request_missing-Frame seq r v =
    if-ind (Frame r) (may_request r) _ _ (λ _. same-Frame r _ _ v refl refl refl (omega arith, tt))
      (λ _. same-Frame r r [] v refl refl refl tt)

rebase :
    (r s : Receiver) (x : Receiver × List Out)
    → s.current ≡ r.current
    → s.c_ack ≡ r.c_ack
    → Frame s x
    → Frame r x
rebase r s x c k f = record {
  current = f.current ∙ c;
  further = omega (arith, f.further);
  ready = f.ready;
  replies = f.replies;
}

buffer_early-Frame : (seq : ℕ) (r : Receiver) → Ready r → Frame r (buffer_early seq r)
unfolding buffer_early store_early
buffer_early-Frame seq r v =
    if-ind (Frame r) (get_or r.buffer (seq % window_size) 0 == 0) _ _
      (λ _.
        rebase r (store_early seq r) _ refl refl
          (request_missing-Frame seq (store_early seq r) (record { len = v.len; ended = v.ended })))
      (λ _. same-Frame r r [] v refl refl refl tt)

on_data-Frame : (r : Receiver) → Ready r → Frame r (on_data r)
unfolding on_data
on_data-Frame r v =
    let s : Receiver = record r { ack_timeout = zero_time } in
    let w : Ready s = record { len = v.len; ended = v.ended } in
    rebase r s _ refl refl (
      if-ind (Frame s) (s.mess.hdr.seq ==ℤ pos (s.c_ack + 1)) _ _
        (λ _.
          if-ind (Frame s) (s.buffersize == 0) _ _ (λ _. deliver_alone-Frame s w)
            (λ _. deliver_and_drain-Frame s w))
        (λ _.
          if-ind (Frame s)
            (leb_ℤ (pos (s.c_ack + 2)) s.mess.hdr.seq
              && leb_ℤ s.mess.hdr.seq (pos (s.c_ack + 1 + window_size)))
            _ _ (λ _. buffer_early-Frame (pos_part s.mess.hdr.seq) s w)
            (λ _. same-Frame s s [] w refl refl refl tt)))

arrive-Ready :
    (from : Addr) (d : Datagram) (r : Receiver)
    → IsEnded 1359 d.payload
    → Ready r
    → Ready (arrive from d r)
arrive-Ready from d r h v = record {
  len = length-overwrite r.mess.text d.payload ∙ v.len;
  ended = overwrite-IsEnded 1359 r.mess.text d.payload v.ended h;
}

abbrev Returns : Receiver → Option (Receiver × List Out) → Type 0
Returns r o = (x : Receiver × List Out) × (o ≡ some x) × Frame r x

not_both : {b : Bool} → b ≡ true → b ≡ false → ⊥
not_both p q = cc

receive-Frame :
    (opened : Bool) (from : Addr) (d : Datagram) (r : Receiver)
    → Ready r
    → IsEnded 1359 d.payload
    → ((d.hdr.seq ==ℤ pos 0) ≡ false) ⊎ (r.has_sender ≡ true)
    → same_addr r.current from ≡ true
    → Returns r (receive opened from d r)
unfolding receive
receive-Frame opened from d r v h name same =
    let s = arrive from d r in
    let w = arrive-Ready from d r h v in
    let f = on_data-Frame s w in
    elim (Bool-cases r.has_sender) [
      | inl busy ↦ elim (Bool-cases (d.hdr.seq ==ℤ negsuc 0)) [
        | inl over ↦ (
          (record s { has_sender = false }, []),
          rw (busy, same, over) refl,
          rebase r s _ refl refl
              (same-Frame s (record s { has_sender = false }) [] w refl refl refl tt),
        )
        | inr more ↦ (on_data s, rw (busy, same, more) refl, rebase r s _ refl refl f)
      ]
      | inr idle ↦ elim name [
        | inl other ↦ (
          (s, []),
          rw (idle, other) refl,
          rebase r s (s, []) refl refl (same-Frame s s [] w refl refl refl tt),
        )
        | inr busy ↦ absurd (not_both busy idle)
      ]
    ]

check_timer-Frame : (now sent : Timeval) (r : Receiver) → Ready r → Frame r (check_timer now sent r)
unfolding check_timer
check_timer-Frame now sent r v =
    if-ind (Frame r) (timer_due now r) _ _
      (λ _. same-Frame r _ _ v refl refl refl (omega arith, tt))
      (λ _. same-Frame r r [] v refl refl refl tt)

-- What the session's sender may bring: nothing, or a datagram that is not a name, unless the session is
-- open.
abbrev pub Brings : Receiver → Option (Addr × Datagram) → Type 0
Brings r none = Unit
Brings r (some (from, d)) =
    IsEnded 1359 d.payload
    × (((d.hdr.seq ==ℤ pos 0) ≡ false) ⊎ (r.has_sender ≡ true))
    × (same_addr r.current from ≡ true)

on_arrival-Frame :
    (opened : Bool) (a : Option (Addr × Datagram)) (r : Receiver)
    → Ready r
    → Brings r a
    → Returns r (on_arrival opened a r)
unfolding on_arrival
on_arrival-Frame opened none r v b = ((r, []), refl, same-Frame r r [] v refl refl refl tt)
on_arrival-Frame opened (some (from, d)) r v (h, name, same) =
    receive-Frame opened from d r v h name same

Below-mono : (a b : ℕ) (out : List Out) → a ≤ b → All (Below a) out → All (Below b) out
Below-mono a b [] h all = tt
Below-mono a b (lossy to x ∷ out) h all = (omega (arith, all.0), Below-mono a b out h all.1)
Below-mono a b (direct to x ∷ out) h all = (omega (arith, all.0), Below-mono a b out h all.1)

Brings-current :
    (r s : Receiver) (a : Option (Addr × Datagram))
    → s.current ≡ r.current
    → s.has_sender ≡ r.has_sender
    → Brings r a
    → Brings s a
Brings-current r s none c k b = tt
Brings-current r s (some (from, d)) c k (h, inl other, same) = (h, inl other, rw c same)
Brings-current r s (some (from, d)) c k (h, inr busy, same) = (h, inr (k ∙ busy), rw c same)

check_timer-open :
    (now sent : Timeval) (r : Receiver) → (check_timer now sent r).0.has_sender ≡ r.has_sender
unfolding check_timer
check_timer-open now sent r =
    if-ind (λ (x : Receiver × List Out). x.0.has_sender ≡ r.has_sender) (timer_due now r) _ _
      (λ _. refl) (λ _. refl)

-- Such a round always returns, keeps the session's sender and the receive buffer ended, takes no packet
-- back, and acknowledges no more than it has.
pub round-Frame : (e : Round) (r : Receiver) → Ready r → Brings r e.arrival → Returns r (round e r)
unfolding round
round-Frame e r v b =
    let c = check_timer e.now e.sent r in
    let f = check_timer-Frame e.now e.sent r v in
    let (x, p, g) =
      on_arrival-Frame e.opened e.arrival c.0 f.ready
        (Brings-current r c.0 e.arrival f.current (check_timer-open e.now e.sent r) b) in
    (
      (x.0, c.1 ++ x.1),
      rw p refl,
      record {
        current = g.current ∙ f.current;
        further = omega (arith, f.further, g.further);
        ready = g.ready;
        replies =
            All-append (Below x.0.c_ack) c.1 x.1
              (Below-mono c.0.c_ack x.0.c_ack c.1 g.further f.replies) g.replies;
      },
    )
