-- ===== src/Timeval/Laws.antt =====
-- What the clock arithmetic of the programs guarantees.
use cs2520_2021spring.Common.{◌≡◌, ◌⊎◌, arith}
use cs2520_2021spring.Common.Int.{pos, ◌+ℤ◌, ◌-ℤ◌, ◌≤ℤ◌, ◌<ℤ◌}
use cs2520_2021spring.Timeval.{Timeval, timeradd, timersub, million}

-- Microseconds between 0 and 999999, as the system's clock gives them.
pub record IsNormal (t : Timeval) : Type 0 where
  pub low : pos 0 ≤ℤ t.usec
  pub high : t.usec <ℤ pos million

-- The lexicographic order that `cmp_time` decides.
abbrev pub Before : Timeval → Timeval → Type 0
Before a b = (a.sec <ℤ b.sec) ⊎ ((a.sec ≡ b.sec) × (a.usec <ℤ b.usec))

-- The sum of two normal times is normal.
pub timeradd-IsNormal : (a b : Timeval) → IsNormal a → IsNormal b → IsNormal (timeradd a b)
unfolding timeradd ◌+ℤ◌ ◌-ℤ◌
timeradd-IsNormal a b x y = ground arith

-- The difference of two normal times is normal.
pub timersub-IsNormal : (a b : Timeval) → IsNormal a → IsNormal b → IsNormal (timersub a b)
unfolding timersub ◌+ℤ◌ ◌-ℤ◌
timersub-IsNormal a b x y = ground arith
