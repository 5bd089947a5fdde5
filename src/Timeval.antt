-- ===== src/Timeval.antt =====
-- `struct timeval`, the macros of <sys/time.h> that the programs use on it, and the helpers
-- `Cmp_time` (the same text in p1/source/ncp.c, p1/source/rcv.c, p2/source/rt_srv.c and
-- p2/source/rt_rcv.c) and `Half_time` (p2/source/rt_rcv.c). A field is an unbounded integer.
pub mod Laws
use cs2520_2021spring.Common.{ℕ, ◌*◌, ◌/◌, ◌+◌, Bool, if◌then◌else◌}
use cs2520_2021spring.Common.Int.{ℤ, pos, negsuc, ◌+ℤ◌, ◌-ℤ◌, ◌/ℤ◌, ltb_ℤ, leb_ℤ, ◌==ℤ◌, sub_ℕ}

pub record Timeval : Type 0 where
  pub sec : ℤ
  pub usec : ℤ

abbrev pub million : ℕ
million = 1_000_000

abbrev pub zero_time : Timeval
zero_time = record { sec = pos 0; usec = pos 0 }

-- `timeradd`: one carry, if the microseconds reach a million.
unfoldable pub timeradd : Timeval → Timeval → Timeval
timeradd a b =
    let u = a.usec +ℤ b.usec in
    let s = a.sec +ℤ b.sec in
    if leb_ℤ (pos million) u
    then record { sec = s +ℤ pos 1; usec = u -ℤ pos million }
    else record { sec = s; usec = u }

-- `timersub`: one borrow, if the microseconds fall below 0.
unfoldable pub timersub : Timeval → Timeval → Timeval
timersub a b =
    let u = a.usec -ℤ b.usec in
    let s = a.sec -ℤ b.sec in
    if ltb_ℤ u (pos 0)
    then record { sec = s -ℤ pos 1; usec = u +ℤ pos million }
    else record { sec = s; usec = u }

-- 1 if t1 > t2, -1 if t1 < t2, 0 if they are equal.
unfoldable pub cmp_time : Timeval → Timeval → ℤ
cmp_time t1 t2 =
    if ltb_ℤ t2.sec t1.sec
    then pos 1
    else if ltb_ℤ t1.sec t2.sec
    then negsuc 0
    else if ltb_ℤ t2.usec t1.usec
    then pos 1
    else if ltb_ℤ t1.usec t2.usec
    then negsuc 0
    else pos 0

-- `t.tv_sec % 2 == 1`, where C's remainder has the sign of the dividend.
is_odd_positive : ℤ → Bool
is_odd_positive s = (s -ℤ (s /ℤ 2 +ℤ s /ℤ 2)) ==ℤ pos 1

unfoldable pub half_time : Timeval → Timeval
unfolding is_odd_positive
half_time t = record {
  sec = t.sec /ℤ 2;
  usec = if is_odd_positive t.sec then t.usec /ℤ 2 +ℤ pos 500000 else t.usec /ℤ 2;
}
