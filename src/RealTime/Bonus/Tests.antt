-- ===== src/RealTime/Bonus/Tests.antt =====
-- A run of p2/source/bonus with one short datagram.
use mathlib.Core.List.{Sublist}
use cs2520_2021spring.Common.{ℕ, refl, List, [], ◌∷◌, length-replicate, replicate}
use cs2520_2021spring.Common.Int.{pos}
use cs2520_2021spring.Timeval.{zero_time}
use cs2520_2021spring.RealTime.Server.{AppPkt, on_app}
use cs2520_2021spring.RealTime.Transfer.{World, begin, sent}
use cs2520_2021spring.RealTime.Transfer.Example.{idle_server, started, link}
use cs2520_2021spring.RealTime.Bonus.{Run, begins, gives, on_raw, fill, raw, HoldAll, raw_in_order}

abbrev nothing_behind : AppPkt
nothing_behind = record { content = []; over_ack = pos 0; over_nack0 = pos 0; over_nack1 = pos 0 }

abbrev clean : List ℕ
clean = replicate 1316 0

abbrev filled : List ℕ
filled = fill (7 ∷ 8 ∷ []) clean

abbrev given_two : World
given_two =
    record (sent (on_app zero_time (record nothing_behind { content = filled }) idle_server)
      (begin idle_server started)) { given = filled ∷ [] }

two_bytes : Run (begin idle_server started) clean ((7 ∷ 8 ∷ []) ∷ []) filled given_two
unfolding on_raw
two_bytes =
    gives begins zero_time (7 ∷ 8 ∷ []) nothing_behind
      (on_app zero_time (record nothing_behind { content = filled }) idle_server, filled) refl

raw_in_order_example :
    Sublist (raw given_two.handed) given_two.given × HoldAll given_two.given ((7 ∷ 8 ∷ []) ∷ [])
raw_in_order_example =
    raw_in_order idle_server started clean ((7 ∷ 8 ∷ []) ∷ []) filled given_two link
      (length-replicate {A = ℕ} 1316 0) two_bytes
