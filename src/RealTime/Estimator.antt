-- ===== src/RealTime/Estimator.antt =====
-- p2/source/rt_rcv.c: the running means of the clock offset (`Base_Delta`, `delta_sec`, `delta_usec`,
-- `delta_i`) and of half the round trip (`Half_RTT`, `rtt_sec`, `rtt_usec`, `rtt_i`), each over the last
-- `RECORD_SIZE` samples. The same text stands in the file three times. `int32_t` is read as unbounded.
pub mod Mean
use cs2520_2021spring.Common.{
  ℕ, ◌+◌, ◌*◌, ◌%◌, ltb, ◌==◌, if◌then◌else◌, List, get_or, set, replicate,
}
use cs2520_2021spring.Common.Int.{ℤ, pos, ◌+ℤ◌, ◌-ℤ◌, ◌*ℤ◌, ◌/ℤ◌}
use cs2520_2021spring.Timeval.{Timeval, million}
use cs2520_2021spring.RealTime.Packet.{record_size}

pub record Estimator : Type 0 where
  pub value : Timeval
  pub secs : List ℤ
  pub usecs : List ℤ
  pub count : ℕ

abbrev pub fresh : Timeval → Estimator
fresh t = record {
  value = t;
  secs = replicate record_size (pos 0);
  usecs = replicate record_size (pos 0);
  count = 0;
}

-- (mean * n + x) / (n + 1), the seconds first and the rest carried into the microseconds.
unfoldable pub blend : Timeval → ℕ → Timeval → Timeval
blend mean n x =
    let s = mean.sec *ℤ pos n +ℤ x.sec in
    let t1 = s /ℤ (n + 1) in
    let t2 = s -ℤ t1 *ℤ pos (n + 1) in
    let t3 = (t2 *ℤ pos million +ℤ mean.usec *ℤ pos n +ℤ x.usec) /ℤ (n + 1) in
    record { sec = t1; usec = t3 }

-- The mean moves by a hundredth of the difference between the new sample and the oldest.
unfoldable pub move : Timeval → Timeval → Timeval → Timeval
move mean old x =
    let s = x.sec -ℤ old.sec in
    let t1 = s /ℤ record_size in
    let t2 = s -ℤ t1 *ℤ pos record_size in
    let t3 = (t2 *ℤ pos million +ℤ x.usec -ℤ old.usec) /ℤ record_size in
    record { sec = mean.sec +ℤ t1; usec = mean.usec +ℤ t3 }

abbrev pub sample : Estimator → ℕ → Timeval
sample e i = record {
  sec = get_or e.secs (i % record_size) (pos 0);
  usec = get_or e.usecs (i % record_size) (pos 0);
}

-- The sample is kept, at the place of the oldest once the records are full.
abbrev pub keep : Timeval → Estimator → Estimator
keep x e = record e {
  secs = set e.secs (e.count % record_size) x.sec;
  usecs = set e.usecs (e.count % record_size) x.usec;
  count = e.count + 1;
}

unfoldable pub observe : Timeval → Estimator → Estimator
observe x e =
    if ltb e.count record_size
    then record (keep x e) { value = blend e.value e.count x }
    else record (keep x e) { value = move e.value (sample e e.count) x }

-- The round trip's version takes the first sample as it is.
unfoldable pub observe_rtt : Timeval → Estimator → Estimator
observe_rtt x e =
    if ltb e.count record_size
    then (if e.count == 0
        then record (keep x e) { value = x }
        else record (keep x e) { value = blend e.value e.count x })
    else record (keep x e) { value = move e.value (sample e e.count) x }
