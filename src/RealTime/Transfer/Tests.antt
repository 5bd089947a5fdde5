-- ===== src/RealTime/Transfer/Tests.antt =====
-- A run of p2/source/rt_srv.c and p2/source/rt_rcv.c with one packet.
use mathlib.Core.List.{Sublist}
use cs2520_2021spring.Common.{
  ◌+◌, arith, ◌≤◌, ◌≡◌, refl, Option, none, some, List, [], ◌∷◌, length, get_or,
}
use cs2520_2021spring.Common.Int.{◌+ℤ◌, ◌-ℤ◌, ◌/ℤ◌, ◌*ℤ◌, pos}
use cs2520_2021spring.Timeval.{timeradd, cmp_time, timeradd, zero_time, timersub}
use cs2520_2021spring.Timeval.Laws.{Before}
use cs2520_2021spring.RealTime.Packet.{Package, StreamPkt}
use cs2520_2021spring.RealTime.Receiver
use cs2520_2021spring.RealTime.Estimator.{observe, blend}
use cs2520_2021spring.RealTime.Receiver.{
  hand_over, due_time, is_due, store, in_time, has_room, on_data, receive, window_of, deliver,
  deliver_due, Receiver, Connect, connected, waiting, refused, init, size_of, on_answer, blank,
}
use cs2520_2021spring.Common.Double.{Whole, whole_double}
use cs2520_2021spring.RealTime.Stream
use cs2520_2021spring.RealTime.Stream.{no_counts}
use cs2520_2021spring.RealTime.Stream.Monitor.{Monitor, Event, arrives, packets}
use cs2520_2021spring.RealTime.Transfer.Stream.{stream_counts}
use cs2520_2021spring.RealTime.Receiver.Accept.{Increasing}
use cs2520_2021spring.RealTime.Server.{AppPkt, on_app}
use cs2520_2021spring.RealTime.Transfer.{
  wait, World, Step, app, arrive, Reach, here, later, begin, sent, received,
}
use cs2520_2021spring.RealTime.Transfer.Example.{idle_server, started, link}
use cs2520_2021spring.RealTime.Transfer.Handing.{deadline, HandsOver, can_hand_over}
use cs2520_2021spring.RealTime.Transfer.Order.{Safe, Step-Safe}
use cs2520_2021spring.RealTime.Transfer.Channel.{contents, begin-Safe, handed_in_order}

abbrev start : World
start = begin idle_server started

abbrev given_one : AppPkt
given_one = record {
  content = 7 ∷ 8 ∷ [];
  over_ack = pos 0;
  over_nack0 = pos 0;
  over_nack1 = pos 0;
}

abbrev after_app : World
after_app = record (sent (on_app zero_time given_one idle_server) start) {
  given = (7 ∷ 8 ∷ []) ∷ [];
}

first_step : Step start after_app
first_step = app zero_time given_one

abbrev clocks : Receiver.Clocks
clocks = record { checked = zero_time; now = zero_time; received = zero_time; echoed = zero_time }

abbrev first : Package
first = get_or after_app.to_receiver 0 blank

Step-Safe_example : Safe after_app
Step-Safe_example = Step-Safe first_step (begin-Safe idle_server started link)

abbrev result_of :
    Option (Receiver × List StreamPkt × List Package) → Receiver × List StreamPkt × List Package
result_of none = (started, [], [])
result_of (some x) = x

-- The packet arrives, and the next round hands it over.
abbrev stored_one : Receiver × List StreamPkt × List Package
stored_one = result_of (Receiver.round zero_time (some (clocks, first)) started)

abbrev after_arrival : World
after_arrival = received stored_one after_app

abbrev handed_one : Receiver × List StreamPkt × List Package
handed_one = result_of (Receiver.round (record { sec = pos 9; usec = pos 0 }) none stored_one.0)

abbrev end : World
end = received handed_one after_arrival

stores : Receiver.round zero_time (some (clocks, first)) started ≡ some stored_one
unfolding Receiver.round deliver_due deliver on_answer init size_of window_of receive on_data
    has_room in_time store timeradd cmp_time
stores = refl

hands : Receiver.round (record { sec = pos 9; usec = pos 0 }) none stored_one.0 ≡ some handed_one
unfolding Receiver.round deliver_due deliver on_answer init size_of window_of receive on_data
    has_room in_time store timeradd cmp_time is_due due_time on_app ◌+ℤ◌ timersub ◌-ℤ◌ observe blend
    ◌/ℤ◌ ◌*ℤ◌ hand_over
hands = refl

run : Reach start end
unfolding on_app
run =
    later
      (later (later here first_step) (arrive zero_time clocks [] [] first stored_one refl stores))
      (wait (record { sec = pos 9; usec = pos 0 }) handed_one hands)

handed_in_order_example :
    Sublist (contents end.handed) end.given
    × Increasing 0 end.handed end.receiver.c_ack
    × (end.receiver.c_ack ≤ length end.given)
handed_in_order_example = handed_in_order idle_server started end link run

-- The one packet is handed over.
one_handed : contents end.handed ≡ (7 ∷ 8 ∷ []) ∷ []
unfolding Receiver.round deliver_due deliver on_answer init size_of window_of receive on_data
    has_room in_time store timeradd cmp_time is_due due_time on_app ◌+ℤ◌ timersub ◌-ℤ◌ observe blend
    ◌/ℤ◌ ◌*ℤ◌ hand_over
one_handed = refl

window_start : (started.c_ack ≡ 0) × (started.size ≡ 100)
unfolding on_answer init size_of
window_start = (refl, refl)

not_past : (Before (deadline zero_time started) clocks.checked → ⊥)
unfolding on_answer init size_of window_of timeradd timersub ◌+ℤ◌ ◌-ℤ◌ observe blend ◌/ℤ◌ ◌*ℤ◌
not_past late = omega (arith, late)

can_hand_over_example : HandsOver start zero_time given_one zero_time clocks
can_hand_over_example =
    can_hand_over idle_server started start link here (omega (arith, window_start)) zero_time
      given_one zero_time clocks not_past

abbrev stream_monitor : Monitor Whole
stream_monitor = record {
  counts = no_counts;
  max_oneway = none;
  start_ts = zero_time;
  next_report_time = zero_time;
}

abbrev events : List Event
events =
    arrives zero_time zero_time
      (get_or end.handed 0 (record { seq = pos 0; ts = zero_time; content = [] }))
    ∷ []

stream_counts_example :
    let t = (Stream.Monitor.run events stream_monitor).0.counts in
    (t.rcvd_count ≡ length end.handed)
    × (t.last_rcvd ≡ pos end.receiver.c_ack)
    × (t.out_of_order_count + length end.handed ≤ end.receiver.c_ack)
    × Sublist (contents (packets events)) end.given
unfolding Receiver.round deliver_due deliver on_answer init size_of window_of receive on_data
    has_room in_time store timeradd cmp_time is_due due_time on_app ◌+ℤ◌ timersub ◌-ℤ◌ observe blend
    ◌/ℤ◌ ◌*ℤ◌ hand_over
stream_counts_example =
    stream_counts idle_server started end events stream_monitor link run refl refl
