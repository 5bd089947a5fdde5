-- ===== src/RealTime/Receiver/Handed.antt =====
-- p2/source/rt_rcv.c: what is in the window is handed over, once all of it is due.
use cs2520_2021spring.Common.{
  ℕ, zero, suc, ◌+◌, ◌%◌, ◌≤◌, ◌<◌, ◌≡◌, refl, ap, sym, subst, arith, true, false, ltb, ◌&&◌, ◌==◌,
  if-ind, dec_eq, le_or_lt, ◌⊎◌, inl, inr, Option, none, some, List, [], ◌∷◌, ◌++◌, get_or,
  get_or-set_ne, ◌∙◌,
}
use cs2520_2021spring.Common.Int.{◌≤ℤ◌, ℤ, pos, negsuc, pos_part, ◌<ℤ◌, ltb_ℤ}
use cs2520_2021spring.Timeval.{Timeval, cmp_time}
use cs2520_2021spring.RealTime.Packet.{Package, StreamPkt}
use cs2520_2021spring.RealTime.Receiver.{
  Receiver, blank, slot, held, stream, hand_over, is_due, due_time, prepend, deliver, deliver_due,
  deliver_fuel,
}
use cs2520_2021spring.RealTime.Receiver.Window.{
  Inv, Scan, Inv-Scan, Scan-next, Scan-hand_over, same_slot,
}
use cs2520_2021spring.RealTime.Receiver.Deliver.{Delivered, marked_before, deliver_due_lem}

-- Deliveries free slots, and leave the packets alone.
abbrev pub Frees : Receiver → Option (Receiver × List StreamPkt) → Type 0
Frees r none = Unit
Frees r (some x) =
    (x.0.window ≡ r.window)
    × ((k : ℕ) → get_or x.0.buffer k 0 ≡ 1 → get_or r.buffer k 0 ≡ 1)
    × (x.0.size ≡ r.size)
    × (x.0.delta ≡ r.delta)
    × (x.0.latency_window ≡ r.latency_window)

prepend-Frees :
    (i : ℕ) (p : StreamPkt) (r : Receiver) (o : Option (Receiver × List StreamPkt))
    → Frees (hand_over i r) o
    → Frees r (prepend p o)
unfolding hand_over
prepend-Frees i p r none f = tt
prepend-Frees i p r (some x) f =
    (f.0, λ k h. marked_before r.buffer (i % r.size) k (f.1 k h), f.2, f.3, f.4)

deliver-Frees : (fuel : ℕ) (now : Timeval) (i : ℕ) (r : Receiver) → Frees r (deliver fuel now i r)
unfolding deliver
deliver-Frees zero now i r = tt
deliver-Frees (suc fuel) now i r =
    if-ind (Frees r) (ltb i (r.c_ack + 1 + r.size) && ltb 0 r.buffersize) _ _
      (λ _.
        if-ind (Frees r) (slot r i == 0) _ _ (λ _. deliver-Frees fuel now (i + 1) r)
          (λ _.
            if-ind (Frees r) (is_due now r (held r i)) _ _
              (λ _.
                prepend-Frees i (stream now (held r i)) r _
                  (deliver-Frees fuel now (i + 1) (hand_over i r)))
              (λ _. (refl, λ k h. h, refl, refl, refl))))
      (λ _. (refl, λ k h. h, refl, refl, refl))

pub deliver_due-Frees :
    (now : Timeval) (r : Receiver) (x : Receiver × List StreamPkt)
    → deliver_due now r ≡ some x
    → Frees r (some x)
unfolding deliver_due
deliver_due-Frees now r x e = subst (Frees r) e (deliver-Frees (deliver_fuel r) now (r.c_ack + 1) r)

-- The packet is among those handed over.
abbrev pub Has : List StreamPkt → StreamPkt → Type 0
Has ps p = (before : List StreamPkt) × (after : List StreamPkt) × (ps ≡ before ++ p ∷ after)

-- A packet that was marked is marked still, or handed over.
abbrev Meets : Timeval → ℕ → Receiver → Option (Receiver × List StreamPkt) → Type 0
Meets now j r none = Unit
Meets now j r (some x) = ((x.0.c_ack < j) × (slot x.0 j ≡ 1)) ⊎ Has x.1 (stream now (held r j))

prepend-Meets_here :
    (now : Timeval) (j : ℕ) (r : Receiver) (o : Option (Receiver × List StreamPkt))
    → Meets now j r (prepend (stream now (held r j)) o)
prepend-Meets_here now j r none = tt
prepend-Meets_here now j r (some x) = inr ([], x.1, refl)

prepend-Meets :
    (now : Timeval) (i j : ℕ) (r : Receiver) (p : StreamPkt)
    (o : Option (Receiver × List StreamPkt))
    → Meets now j (hand_over i r) o
    → Meets now j r (prepend p o)
unfolding hand_over
prepend-Meets now i j r p none m = tt
prepend-Meets now i j r p (some x) (inl m) = inl m
prepend-Meets now i j r p (some x) (inr (before, after, e)) =
    inr (p ∷ before, after, ap (λ t. p ∷ t) e)

other_slot :
    (i j : ℕ) (r : Receiver) → i < j → j < i + r.size → slot r j ≡ 1 → slot (hand_over i r) j ≡ 1
unfolding hand_over
other_slot i j r lo hi one =
    get_or-set_ne r.buffer (i % r.size) (j % r.size) 0 0
      (λ e. absurd (omega (arith, lo, same_slot r.size j i (omega (arith, lo)) hi (sym e))))
    ∙ one

not_skipped : (i j : ℕ) (r : Receiver) → Scan i r → r.c_ack < j → slot r j ≡ 1 → i ≤ j
not_skipped i j r s lo one = elim (le_or_lt i j) [
  | inl le ↦ le
  | inr less ↦ absurd (omega (arith, one, s.skipped j lo less))
]

later_ack : (i j : ℕ) (r : Receiver) → i < j → (hand_over i r).c_ack < j
unfolding hand_over
later_ack i j r h = h

later_window :
    (i j : ℕ) (r : Receiver) → j ≤ i + r.size → j ≤ (hand_over i r).c_ack + (hand_over i r).size
unfolding hand_over
later_window i j r h = h

deliver-Meets :
    (fuel : ℕ) (now : Timeval) (i j : ℕ) (r : Receiver)
    → Scan i r
    → r.c_ack < j
    → j ≤ r.c_ack + r.size
    → slot r j ≡ 1
    → Meets now j r (deliver fuel now i r)
unfolding deliver
deliver-Meets zero now i j r s lo hi one = tt
deliver-Meets (suc fuel) now i j r s lo hi one =
    if-ind (Meets now j r) (ltb i (r.c_ack + 1 + r.size) && ltb 0 r.buffersize) _ _
      (λ _.
        if-ind (Meets now j r) (slot r i == 0) _ _
          (λ gap.
            deliver-Meets fuel now (i + 1) j r (Scan-next i r s (ground (arith, gap))) lo hi one)
          (λ full.
            if-ind (Meets now j r) (is_due now r (held r i)) _ _
              (λ _. elim (dec_eq i j) [
                | inl p ↦
                    subst
                      (λ k. Meets now j r (
                        prepend (stream now (held r k)) (deliver fuel now (i + 1) (hand_over i r))))
                      (sym p)
                      (prepend-Meets_here now j r (deliver fuel now (i + 1) (hand_over i r)))
                | inr q ↦
                    let le = not_skipped i j r s lo one in
                    let less : i < j = omega (arith, le, q) in
                    let marked : slot r i ≡ 1 = ground (arith, full, s.slots.bits (i % r.size)) in
                    prepend-Meets now i j r (stream now (held r i)) _ (
                      deliver-Meets fuel now (i + 1) j (hand_over i r) (Scan-hand_over i r s marked)
                        (later_ack i j r less) (later_window i j r (omega (arith, hi, s.ahead)))
                        (other_slot i j r less (omega (arith, hi, s.ahead)) one))
              ])
              (λ _. inl (lo, one))))
      (λ _. inl (lo, one))

above_lem : (z : ℤ) → z <ℤ pos (pos_part z + 1)
above_lem z = omega arith

-- A second by which every packet of the list is due.
due_bound :
    (r : Receiver) (xs : List Package)
    → (m : ℕ) × ((i : ℕ) → (due_time r (get_or xs i blank)).sec <ℤ pos m)
due_bound r [] = (pos_part (due_time r blank).sec + 1, λ i. above_lem (due_time r blank).sec)
due_bound r (x ∷ xs) =
    let (m, rest) = due_bound r xs in (pos_part (due_time r x).sec + 1 + m, each m rest)
  where
    each :
        (m : ℕ)
        → ((i : ℕ) → (due_time r (get_or xs i blank)).sec <ℤ pos m)
        → (i : ℕ)
        → (due_time r (get_or (x ∷ xs) i blank)).sec <ℤ pos (pos_part (due_time r x).sec + 1 + m)
    each m rest zero = omega (arith, above_lem (due_time r x).sec)
    each m rest (suc i) = omega (arith, rest i)

cmp_later : (a b : Timeval) → b.sec <ℤ a.sec → ltb_ℤ (negsuc 0) (cmp_time a b) ≡ true
unfolding cmp_time
cmp_later a b h = ground (arith, h)

is_due-later :
    (now : Timeval) (r : Receiver) (p : Package)
    → (due_time r p).sec <ℤ now.sec
    → is_due now r p ≡ true
unfolding is_due
is_due-later now r p h = cmp_later now (due_time r p) h

due_time-same :
    (r s : Receiver) (p : Package)
    → s.delta ≡ r.delta
    → s.latency_window ≡ r.latency_window
    → due_time s p ≡ due_time r p
unfolding due_time
due_time-same r s p d l = rw (d, l) refl

deliver_due-Meets :
    (now : Timeval) (j : ℕ) (r : Receiver) (x : Receiver × List StreamPkt)
    → Inv r
    → r.c_ack < j
    → j ≤ r.c_ack + r.size
    → slot r j ≡ 1
    → deliver_due now r ≡ some x
    → Meets now j r (some x)
unfolding deliver_due
deliver_due-Meets now j r x v lo hi one e =
    subst (Meets now j r) e
      (deliver-Meets (deliver_fuel r) now (r.c_ack + 1) j r (Inv-Scan r v) lo hi one)

pub Delivered-le :
    (now : Timeval) (r : Receiver) (lo : ℕ) (ps : List StreamPkt) (hi : ℕ)
    → Delivered now r lo ps hi
    → lo ≤ hi
Delivered-le now r lo [] hi d = omega (arith, d)
Delivered-le now r lo (p ∷ ps) hi (n, less, a, b, c, m, d) =
    omega (arith, less, Delivered-le now r n ps hi d)

true_not_false : true ≡ false → ⊥
true_not_false e = cc

-- From that second on every packet that is left is due.
due_still :
    (m : ℕ) (r : Receiver) (now : Timeval) (x : Receiver × List StreamPkt)
    → ((i : ℕ) → (due_time r (get_or r.window i blank)).sec <ℤ pos m)
    → pos m ≤ℤ now.sec
    → Frees r (some x)
    → (k : ℕ) → is_due now x.0 (held x.0 k) ≡ true
due_still m r now x bound at (window, marks, size, delta, latency) k =
    let due : (due_time x.0 (held x.0 k)).sec <ℤ pos m =
      subst (λ t. t.sec <ℤ pos m) (sym (due_time-same r x.0 (held x.0 k) delta latency))
        (subst (λ w. (due_time r (get_or w (k % x.0.size) blank)).sec <ℤ pos m) (sym window)
          (bound (k % x.0.size))) in
    is_due-later now x.0 (held x.0 k) (omega (arith, due, at))

-- From some second on all packets of a right window are due, and then each of them is handed over.
pub deliver_due-hands :
    (r : Receiver)
    → Inv r
    → (m : ℕ) × ((late : Timeval) (j : ℕ)
        → pos m ≤ℤ late.sec
        → r.c_ack < j
        → j ≤ r.c_ack + r.size
        → slot r j ≡ 1
        → (x : Receiver × List StreamPkt) × (deliver_due late r ≡ some x)
          × Has x.1 (stream late (held r j)))
deliver_due-hands r v =
    let (m, bound) = due_bound r r.window in
    (m, λ late j at lo hi one. handed m bound late at j lo hi one)
  where
    handed :
        (m : ℕ)
        → ((i : ℕ) → (due_time r (get_or r.window i blank)).sec <ℤ pos m)
        → (late : Timeval) → pos m ≤ℤ late.sec
        → (j : ℕ) → r.c_ack < j
        → j ≤ r.c_ack + r.size
        → slot r j ≡ 1
        → (x : Receiver × List StreamPkt) × (deliver_due late r ≡ some x)
          × Has x.1 (stream late (held r j))
    handed m bound late at j lo hi one =
        let (x, e, w, d, stop) = deliver_due_lem late r v in
        let f = deliver_due-Frees late r x e in
        (
          x,
          e,
          elim (deliver_due-Meets late j r x v lo hi one e) [
            | inr has ↦ has
            | inl still ↦ absurd (elim stop [
              | inl empty ↦ omega (
                arith,
                empty j still.0
                    (omega (arith, hi, f.2, Delivered-le late r r.c_ack x.1 x.0.c_ack d)),
                still.1,
              )
              | inr (k, a, b, early, c) ↦
                  true_not_false (sym (due_still m r late x bound at f k) ∙ early)
            ])
          ],
        )
