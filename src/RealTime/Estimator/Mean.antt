-- ===== src/RealTime/Estimator/Mean.antt =====
-- What the running means of rt_rcv.c are means of.
use native.Mathlib.Nat.{div-mul-le_self, mul-add-div_right}
use cs2520_2021spring.Common.{◌∙◌, sym, ap, ◌-◌, ℕ, ◌+◌, ◌*◌, ◌/◌, ◌≤◌, ◌<◌, ◌≡◌, refl, arith}
use cs2520_2021spring.Common.Int.{
  pos-sub, pos-div, pos-add, pos-mul, sub-mul-one_ℤ, div-one_ℤ, zero-add_ℤ, mul-zero_ℤ, pos, ◌*ℤ◌,
}
use cs2520_2021spring.Timeval.{Timeval, million}
use cs2520_2021spring.RealTime.Estimator.{Estimator, blend, observe, observe_rtt}

-- A time of so many seconds and microseconds.
abbrev pub time : ℕ → ℕ → Timeval
time s u = record { sec = pos s; usec = pos u }

abbrev pub micros : ℕ → ℕ → ℕ
micros s u = s * million + u

-- The division of the seconds, with its rest carried over, is one division of the microseconds.
carry :
    (total u m : ℕ)
    → 0 < m
    → total / m * million + ((total - total / m * m) * million + u) / m ≡ (total * million + u) / m
carry total u m h =
    let q = total / m in
    let r = total - total / m * m in
    let whole : q * m + r ≡ total = omega (arith, div-mul-le_self total m) in
    let split : total * million + u ≡ q * million * m + (r * million + u) =
      omega (arith, ap (λ (t : ℕ). t * million) whole) in
    sym (ap (λ t. t / m) split ∙ mul-add-div_right h (q * million) (r * million + u))

-- The mean that is taken below a hundred samples is, to the microsecond, the mean of the old one taken
-- `n` times and the new sample, for times that are not negative.
pub blend_lem :
    (s u n x y : ℕ)
    → (t : ℕ × ℕ) × (blend (time s u) n (time x y) ≡ time t.0 t.1)
      × (micros t.0 t.1 ≡ (micros s u * n + micros x y) / (n + 1))
unfolding blend
blend_lem s u n x y =
    let total = s * n + x in
    let q = total / (n + 1) in
    let le : q * (n + 1) ≤ total = div-mul-le_self total (n + 1) in
    (
      (q, ((total - q * (n + 1)) * million + u * n + y) / (n + 1)),
      rw
          (
            pos-mul,
            pos-add,
            pos-div,
            pos-mul,
            pos-sub total (q * (n + 1)) le,
            pos-mul,
            pos-mul,
            pos-add,
            pos-add,
            pos-div,
          )
          refl,
      ap (λ t. q * million + t / (n + 1)) (omega arith)
          ∙ carry total (u * n + y) (n + 1) (omega arith)
          ∙ ap (λ t. t / (n + 1)) (omega arith),
    )

zero_million : pos 0 *ℤ pos million ≡ pos 0
zero_million = pos-mul 0 million

blend_zero : (mean x : Timeval) → blend mean 0 x ≡ x
unfolding blend
blend_zero mean x = simp (mul-zero_ℤ, zero-add_ℤ, div-one_ℤ, sub-mul-one_ℤ, zero_million)

-- The second text of the mean, for the round trip, computes the same as the first, for the clock offset.
pub observe_rtt-eq-observe : (x : Timeval) (e : Estimator) → observe_rtt x e ≡ observe x e
unfolding observe observe_rtt
observe_rtt-eq-observe x e = ground (arith, blend_zero e.value x)
