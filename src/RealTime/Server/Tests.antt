-- ===== src/RealTime/Server/Tests.antt =====
-- Runs of p2/source/rt_srv.c on a window of two packets.
use cs2520_2021spring.Common.{
  ◌+◌, Option, inr, ◌⊎◌, inl, ℕ, zero, suc, ◌%◌, ◌≤◌, ◌<◌, ◌≡◌, refl, true, false, none, some, List,
  [], ◌∷◌, arith, length,
}
use cs2520_2021spring.Common.Int.{pos, ◌+ℤ◌, ◌-ℤ◌}
use cs2520_2021spring.Timeval.{Timeval, zero_time, cmp_time, timeradd}
use cs2520_2021spring.FileCopy.Message.{Addr}
use cs2520_2021spring.RealTime.Packet.{Package}
use cs2520_2021spring.RealTime.Receiver.{blank}
use cs2520_2021spring.RealTime.Server.{
  accept, AppPkt, Server, Out, Clocks, on_app, on_network, resend, slide_head, is_expired,
}
use cs2520_2021spring.RealTime.Server.Loop.{Round, round, run}
use cs2520_2021spring.RealTime.Server.Report.{retransmissions}
use cs2520_2021spring.RealTime.Server.Counted.{of_kind, run-send_count}
use cs2520_2021spring.RealTime.Server.Slide.{slide_head_lem, slide_head_runs_on}
use cs2520_2021spring.RealTime.Server.Resend.{Quiet, length-resend-le-one}
use cs2520_2021spring.RealTime.Server.Addresses.{data_after_decline}

abbrev peer : Addr
peer = record { ip = 7; port = 5000 }

abbrev other : Addr
other = record { ip = 8; port = 5000 }

abbrev at : ℕ → Timeval
at n = record { sec = pos n; usec = pos 0 }

-- The packets 1 and 2 are sent; the times of their slots pass at 10.
abbrev server : Timeval → Server
server second = record {
  size = 2;
  latency_window = at 5;
  halfrtt = zero_time;
  head = 1;
  seq = 3;
  window = record blank { seq = pos 2 } ∷ record blank { seq = pos 1 } ∷ [];
  slide = second ∷ at 10 ∷ [];
  rcv_pkt = record blank { kind = pos 2; nack = pos 1 ∷ pos 2 ∷ [] };
  rcv_addr = peer;
  current_addr = peer;
  send_count = 2;
  total_count = 2;
}

abbrev app : AppPkt
app = record { content = 104 ∷ []; over_ack = pos 0; over_nack0 = pos 0; over_nack1 = pos 0 }

abbrev clocks : Clocks
clocks = record { acked = at 6; refused = at 6; now = λ i. at 6; sent = λ i. at 6 }

-- The time of the first slot has passed, that of the second has not.
first_old : is_expired (at 11) 1 (server (at 20)) ≡ true
unfolding is_expired cmp_time timeradd ◌+ℤ◌ ◌-ℤ◌
first_old = refl

second_new : is_expired (at 11) 2 (server (at 20)) ≡ false
unfolding is_expired cmp_time timeradd ◌+ℤ◌ ◌-ℤ◌
second_new = refl

slide_head_lem_example :
    (h : ℕ) × (slide_head 2 (at 11) 1 (server (at 20))
      ≡ some (record (server (at 20)) { head = h }))
    × (1 ≤ h)
    × (h ≤ 2)
    × (is_expired (at 11) h (server (at 20)) ≡ false)
    × ((k : ℕ) → 1 ≤ k → k < h → is_expired (at 11) k (server (at 20)) ≡ true)
slide_head_lem_example =
    slide_head_lem (at 11) 1 2 (server (at 20)) (omega arith) (omega arith) second_new

parity : (k : ℕ) → (k % 2 ≡ 0) ⊎ (k % 2 ≡ 1)
parity k = ground arith

all_old : (k : ℕ) → is_expired (at 11) k (server (at 10)) ≡ true
unfolding is_expired cmp_time timeradd ◌+ℤ◌ ◌-ℤ◌
all_old k = elim (parity k) [ inl p ↦ rw p refl | inr p ↦ rw p refl ]

slide_head_runs_on_example : slide_head 50 (at 11) 1 (server (at 10)) ≡ none
slide_head_runs_on_example =
    slide_head_runs_on (at 11) 50 (server (at 10)) (omega arith) (omega arith) all_old

server-Quiet : Quiet (server (at 10))
server-Quiet zero i = omega arith
server-Quiet (suc zero) i = omega arith
server-Quiet (suc (suc j)) i = omega arith

length-resend-le-one_example : length (resend (λ i. at 6) (λ i. at 6) 10 0 (server (at 10))).1 ≤ 1
length-resend-le-one_example =
    length-resend-le-one (λ i. at 6) (λ i. at 6) 10 0 (server (at 10)) server-Quiet

abbrev wish : Package
wish = record blank { kind = pos 3 }

data_after_decline_example :
    let t = on_network clocks other wish (server (at 10)) in
    ((o : Out) × (t.1 ≡ o ∷ []) × (o.to ≡ other) × (o.pkt.kind ≡ pos 5))
    × (t.0.current_addr ≡ peer)
    × ((o : Out) × ((on_app (at 6) app t.0).1 ≡ o ∷ []) × (o.to ≡ other) × (o.pkt.kind ≡ pos 0))
data_after_decline_example =
    data_after_decline clocks other wish (at 6) app (server (at 10)) refl refl

abbrev option_or : Option (Server × List Out) → Server × List Out
option_or none = (server (at 10), [])
option_or (some x) = x

abbrev requested : Package
requested = record blank { kind = pos 3; window_size = pos 2 }

abbrev begun : Server × List Out
begun = option_or (accept (at 1) peer requested (blank ∷ blank ∷ []) (at 0 ∷ at 0 ∷ []))

abbrev given : Round
given = record { app = some (at 2, app); network = none; slides = at 2 }

abbrev served : Server × List Out
served = option_or (run 5 (given ∷ []) begun.0)

run-send_count_example :
    (served.0.send_count ≡ of_kind (pos 0) served.1)
    × (served.0.seq ≡ served.0.send_count + 1)
    × (retransmissions served.0 ≡ pos (of_kind (pos 6) served.1))
unfolding accept run round on_app slide_head is_expired cmp_time timeradd ◌+ℤ◌ ◌-ℤ◌
run-send_count_example =
    run-send_count (at 1) peer requested (blank ∷ blank ∷ []) (at 0 ∷ at 0 ∷ []) begun.0 begun.1 5
      (given ∷ []) served refl refl
