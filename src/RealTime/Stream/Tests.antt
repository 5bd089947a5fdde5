-- ===== src/RealTime/Stream/Tests.antt =====
-- Runs of p2/source/udp_stream.c and p2/source/udp_stream_rcv.c.
use cs2520_2021spring.Common.{
  ℕ, suc, ◌*◌, ◌≡◌, refl, arith, ltb, leb, if◌then◌else◌, none, some, List, [], ◌∷◌, length, map,
}
use cs2520_2021spring.Common.Int.{ℤ, pos, negsuc, ◌+ℤ◌, ◌-ℤ◌, ◌*ℤ◌, ltb_ℤ}
use cs2520_2021spring.Common.Double.{Double, Whole, IsWhole, Whole-IsOrdered, whole_double}
use cs2520_2021spring.Timeval.{Timeval, zero_time}
use cs2520_2021spring.RealTime.Packet.{StreamPkt}
use cs2520_2021spring.RealTime.Delay.{oneway, IsGreatest}
use cs2520_2021spring.RealTime.Stream.{no_counts, count_all, delay}
use cs2520_2021spring.RealTime.Stream.Monitor.{
  Monitor, Event, arrives, silent, run, run_lem, packets, silences, delays,
}
use cs2520_2021spring.RealTime.Stream.Sender.{
  IsExact, int_delay, int_delay_lem, send_stream, stream_lem, Sent,
}

abbrev at : ℕ → Timeval
at n = record { sec = pos n; usec = pos 0 }

abbrev numbered : ℕ → StreamPkt
numbered n = record { seq = pos n; ts = at n; content = [] }

-- Two packets, 4 and 9 seconds late, and a silence.
abbrev events : List Event
events =
    arrives (at 5) (at 5) (numbered 1) ∷ arrives (at 11) (at 11) (numbered 2) ∷ silent (at 12) ∷ []

abbrev fresh : Monitor Whole
fresh = record {
  counts = no_counts;
  max_oneway = none;
  start_ts = zero_time;
  next_report_time = zero_time;
}

oneway-IsWhole : (a b : Timeval) → IsWhole (oneway a b)
unfolding oneway whole_double
oneway-IsWhole a b = tt

run_lem_example :
    let t = run events fresh in
    (t.0.counts ≡ count_all (packets events) no_counts)
    × (length t.1 ≡ silences events)
    × IsGreatest t.0.max_oneway (delays events [])
run_lem_example = run_lem Whole-IsOrdered oneway-IsWhole events fresh refl (omega arith)

-- Fractions with a denominator that may be 0.
abbrev Ratio : Type 0
Ratio = ℤ × ℕ

abbrev ratio_div : Ratio → Ratio → Ratio
ratio_div (a, m) (pos c, n) = (a *ℤ pos n, m * c)
ratio_div (a, m) (negsuc c, n) = (pos 0 -ℤ a *ℤ pos n, m * suc c)

instance ratio_double : Double Ratio
ratio_double = record {
  of_int = λ a. (a, 1);
  add = λ x y. (x.0 *ℤ pos y.1 +ℤ y.0 *ℤ pos x.1, x.1 * y.1);
  mul = λ x y. (x.0 *ℤ y.0, x.1 * y.1);
  div = ratio_div;
  lt = λ x y. ltb_ℤ (x.0 *ℤ pos y.1) (y.0 *ℤ pos x.1);
}

Ratio-IsExact : IsExact Ratio
unfolding ratio_double ◌*ℤ◌
Ratio-IsExact = record { lt_quotient = λ n k h. ground arith; lt_negative = λ n k. ground arith }

-- The first packet that is not paced.
int_delay_lem_example : int_delay Ratio 198_842 (pos 1000) ≡ (
    let w = delay 1350 198_842 1000 in
    if leb 198_842 198_841 then (if ltb 0 w then some w else none) else none)
int_delay_lem_example = int_delay_lem Ratio Ratio-IsExact 198_842 1000 (omega arith)

stream_lem_example :
    (sent : List Sent) × (send_stream Ratio 9 (pos 2) (7 ∷ []) (at 1) at ≡ some sent)
    × (map (λ s. s.pkt.seq) sent ≡ pos 1 ∷ pos 2 ∷ [])
    × (map (λ s. s.pkt.ts) sent ≡ at 1 ∷ at 2 ∷ [])
    × ((count_all (map Sent.pkt sent) no_counts).last_rcvd ≡ pos 2)
    × ((count_all (map Sent.pkt sent) no_counts).rcvd_count ≡ 2)
    × ((count_all (map Sent.pkt sent) no_counts).out_of_order_count ≡ 0)
stream_lem_example = stream_lem Ratio 9 (pos 2) (7 ∷ []) (at 1) at (omega arith) (omega arith)
