-- ===== src/RealTime/Receiver/Deliver.antt =====
-- p2/source/rt_rcv.c: the delivery loop ends, in order, and hands over exactly what is due.
use cs2520_2021spring.Common.{
  ℕ, zero, suc, ◌+◌, ◌-◌, ◌*◌, ◌%◌, ◌≤◌, ◌<◌, ◌≡◌, refl, arith, true, false, ltb, ◌&&◌, ◌==◌,
  if-ind, get_or, set, Option, some, List, [], ◌∷◌, ◌⊎◌, inl, inr, get_or-le-sum,
}
use cs2520_2021spring.Common.Int.{pos}
use cs2520_2021spring.Timeval.{Timeval}
use cs2520_2021spring.RealTime.Packet.{StreamPkt}
use cs2520_2021spring.RealTime.Receiver.{
  Receiver, slot, held, stream, hand_over, is_due, due_time, deliver, deliver_due, deliver_fuel,
  prepend,
}
use cs2520_2021spring.RealTime.Receiver.Window.{
  Inv, Scan, Inv-Scan, Scan-Inv, Scan-next, Scan-hand_over,
}

-- What went out, from the last number `lo` on up to `hi`: packets with growing numbers, each the one
-- that the slot of its number held, marked as buffered, and each due.
abbrev pub Delivered : Timeval → Receiver → ℕ → List StreamPkt → ℕ → Type 0
Delivered now r lo [] hi = lo ≡ hi
Delivered now r lo (p ∷ ps) hi =
    (n : ℕ) × (lo < n)
    × (p ≡ stream now (held r n))
    × (p.seq ≡ pos n)
    × (is_due now r (held r n) ≡ true)
    × (slot r n ≡ 1)
    × Delivered now r n ps hi

-- Nothing is left, or the first packet that is left is not due.
abbrev pub Stopped : Timeval → Receiver → Type 0
Stopped now r =
    ((k : ℕ) → r.c_ack < k → k ≤ r.c_ack + r.size → slot r k ≡ 0)
    ⊎ ((j : ℕ) × (r.c_ack < j)
        × (slot r j ≡ 1)
        × (is_due now r (held r j) ≡ false)
        × ((k : ℕ) → r.c_ack < k → k < j → slot r k ≡ 0))

-- A slot that is marked after another was freed was marked before.
pub marked_before : (xs : List ℕ) (i j : ℕ) → get_or (set xs i 0) j 0 ≡ 1 → get_or xs j 0 ≡ 1
marked_before [] i j h = h
marked_before (x ∷ xs) zero zero h = absurd (omega (arith, h))
marked_before (x ∷ xs) zero (suc j) h = h
marked_before (x ∷ xs) (suc i) zero h = h
marked_before (x ∷ xs) (suc i) (suc j) h = marked_before xs i j h

Delivered-hand_over :
    (now : Timeval) (i : ℕ) (r : Receiver) (lo : ℕ) (ps : List StreamPkt) (hi : ℕ)
    → Delivered now (hand_over i r) lo ps hi
    → Delivered now r lo ps hi
unfolding hand_over is_due due_time
Delivered-hand_over now i r lo [] hi h = h
Delivered-hand_over now i r lo (p ∷ ps) hi (n, a, b, c, d, m, h) = (
  n,
  a,
  b,
  c,
  d,
  marked_before r.buffer (i % r.size) (n % r.size) m,
  Delivered-hand_over now i r n ps hi h,
)

abbrev measure : ℕ → Receiver → ℕ
measure i r = r.buffersize * r.size + (r.c_ack + 1 + r.size - i)

abbrev Good : Timeval → Receiver → Option (Receiver × List StreamPkt) → Type 0
Good now r o =
    (x : Receiver × List StreamPkt) × (o ≡ some x)
    × Inv x.0
    × Delivered now r r.c_ack x.1 x.0.c_ack
    × Stopped now x.0

taken :
    (now : Timeval) (i : ℕ) (r : Receiver)
    → Scan i r
    → slot r i ≡ 1
    → is_due now r (held r i) ≡ true
    → (o : Option (Receiver × List StreamPkt)) → Good now (hand_over i r) o
    → Good now r (prepend (stream now (held r i)) o)
unfolding hand_over
taken now i r s one due o ((t, ps), e, v, d, stop) = (
  (t, stream now (held r i) ∷ ps),
  rw e refl,
  v,
  (
    i,
    s.ahead,
    refl,
    s.slots.holds i (omega arith) (omega (arith, s.slots.nonempty)) one,
    due,
    one,
    Delivered-hand_over now i r i ps t.c_ack d,
  ),
  stop,
)

pred_mul : (b w : ℕ) → 0 < b → (b - 1) * w + w ≡ b * w
pred_mul zero w h = absurd (omega arith)
pred_mul (suc b) w h = grind arith

measure-hand_over :
    (fuel i : ℕ) (r : Receiver)
    → 0 < r.buffersize
    → i < r.c_ack + 1 + r.size
    → measure i r < suc fuel
    → measure (i + 1) (hand_over i r) < fuel
unfolding hand_over
measure-hand_over fuel i r left room m = omega (arith, pred_mul r.buffersize r.size left)

deliver_lem :
    (fuel : ℕ) (now : Timeval) (i : ℕ) (r : Receiver)
    → Scan i r
    → measure i r < fuel
    → Good now r (deliver fuel now i r)
unfolding deliver
deliver_lem zero now i r s m = absurd (omega arith)
deliver_lem (suc fuel) now i r s m =
    if-ind (Good now r) (ltb i (r.c_ack + 1 + r.size) && ltb 0 r.buffersize) _ _
      (λ more.
        if-ind (Good now r) (slot r i == 0) _ _
          (λ gap. deliver_lem fuel now (i + 1) r (Scan-next i r s (ground arith)) (ground arith))
          (λ full.
            if-ind (Good now r) (is_due now r (held r i)) _ _
              (λ due.
                let one : slot r i ≡ 1 = ground (arith, s.slots.bits (i % r.size)) in
                let left : 0 < r.buffersize = ground arith in
                let room : i < r.c_ack + 1 + r.size = ground arith in
                taken now i r s one due _ (
                  deliver_lem fuel now (i + 1) (hand_over i r) (Scan-hand_over i r s one)
                    (measure-hand_over fuel i r left room m)))
              (λ early. (
                (r, []),
                refl,
                Scan-Inv i r s,
                refl,
                inr (i, s.ahead, ground (arith, s.slots.bits (i % r.size)), early, s.skipped),
              ))))
      (λ over. (
        (r, []),
        refl,
        Scan-Inv i r s,
        refl,
        inl (λ k lo hi.
            ground (arith, s.slots.counted, get_or-le-sum r.buffer (k % r.size), s.skipped k)),
      ))

-- The delivery at the clock `now`, by a receiver with a right window, always ends. It keeps the window
-- right, hands over packets with growing numbers behind the old `C_ack`, each the one that its slot
-- held, marked as buffered, and each due, ends with `C_ack` at the last of them, and stops only where
-- nothing is left or the first packet that is left is not due.
pub deliver_due_lem :
    (now : Timeval) (r : Receiver)
    → Inv r
    → (x : Receiver × List StreamPkt) × (deliver_due now r ≡ some x)
      × Inv x.0
      × Delivered now r r.c_ack x.1 x.0.c_ack
      × Stopped now x.0
unfolding deliver_due
deliver_due_lem now r v =
    deliver_lem (deliver_fuel r) now (r.c_ack + 1) r (Inv-Scan r v) (omega arith)
