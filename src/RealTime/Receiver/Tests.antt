-- ===== src/RealTime/Receiver/Tests.antt =====
-- Runs of the statistics of p2/source/rt_rcv.c.
use cs2520_2021spring.Common.{
  ◌+◌, ℕ, ◌-◌, ◌≤◌, ◌≡◌, refl, Option, none, some, List, [], ◌∷◌, length, replicate,
}
use cs2520_2021spring.Common.Int.{◌*ℤ◌, ◌/ℤ◌, ◌-ℤ◌, ◌+ℤ◌, pos}
use cs2520_2021spring.Common.Double.{Whole, whole_double, Whole-IsOrdered}
use cs2520_2021spring.Timeval.{Timeval, zero_time, timersub, cmp_time, timeradd}
use cs2520_2021spring.RealTime.Packet.{Package, StreamPkt}
use cs2520_2021spring.RealTime.Delay.{oneway, IsGreatest, IsLeast}
use cs2520_2021spring.RealTime.Receiver.{
  hand_over, due_time, is_due, store, in_time, has_room, on_data, receive, window_of, deliver,
  deliver_due, Receiver, Clocks, blank, init, size_of, run,
}
use cs2520_2021spring.RealTime.Estimator.{observe, blend}
use cs2520_2021spring.RealTime.Receiver.Loss.{loss, loss_lem}
use cs2520_2021spring.RealTime.Receiver.Monitor.{Monitor, takes}
use cs2520_2021spring.RealTime.Receiver.Watched.{Brings, loop, accepted}
use cs2520_2021spring.RealTime.Receiver.Extremes.{loop_lem}

abbrev clocks : Clocks
clocks = record { checked = zero_time; now = zero_time; received = zero_time; echoed = zero_time }

-- The packet 2, and a round that brings nothing.
abbrev rounds : List (Timeval × Option (Clocks × Package))
rounds = (zero_time, some (clocks, record blank { seq = pos 2 })) ∷ (zero_time, none) ∷ []

loss_lem_example :
    (x : Receiver × List StreamPkt) × (run rounds (init 0 (replicate 100 blank) blank) ≡ some x)
    × (length x.1 ≤ x.0.c_ack)
    × (loss x.0 ≡ pos (x.0.c_ack - length x.1))
unfolding size_of
loss_lem_example = loss_lem 0 (replicate 100 blank) blank rounds refl

abbrev unset : Monitor Whole
unset = record {
  start_ts = zero_time;
  next_report_time = zero_time;
  max_oneway = none;
  min_oneway = none;
  avg_oneway = none;
}

-- The packets 1, 2 and 4, the first of them 9 seconds late.
abbrev late_by : ℕ → Clocks
late_by n = record clocks { now = record { sec = pos n; usec = pos 0 } }

abbrev heard_at : ℕ → ℕ → Timeval × Brings
heard_at n seq = (zero_time, some (zero_time, late_by n, record blank { seq = pos seq }))

abbrev three : List (Timeval × Brings)
three = heard_at 9 1 ∷ heard_at 5 2 ∷ heard_at 3 4 ∷ (zero_time, none) ∷ []

three_accepted :
    accepted three (init 0 (replicate 100 blank) blank)
    ≡ some (pos 9000) ∷ some (pos 5000) ∷ some (pos 3000) ∷ []
unfolding deliver_due deliver init size_of window_of receive on_data has_room in_time store timeradd
    cmp_time is_due due_time ◌+ℤ◌ timersub ◌-ℤ◌ observe blend ◌/ℤ◌ ◌*ℤ◌ hand_over takes oneway
    whole_double
three_accepted = refl

-- The 9 seconds are forgotten.
loop_lem_example :
    (t : Receiver × Monitor Whole) × (loop three (init 0 (replicate 100 blank) blank) unset
      ≡ some t)
    × (t.0.rcvd_count ≡ 2 + length (some (pos 3000) ∷ []))
    × IsGreatest t.1.max_oneway (some (pos 3000) ∷ some (pos 5000) ∷ [])
    × IsLeast t.1.min_oneway (some (pos 3000) ∷ some (pos 5000) ∷ [])
unfolding size_of
loop_lem_example =
    loop_lem Whole-IsOrdered 0 (replicate 100 blank) blank unset three (some (pos 9000))
      (some (pos 5000)) (some (pos 3000) ∷ []) refl three_accepted tt (tt, tt)
