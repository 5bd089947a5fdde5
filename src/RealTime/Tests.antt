-- ===== src/RealTime/Tests.antt =====
-- Runs of p2/source/rt_rcv.c and p2/source/rt_srv.c on small inputs.
use cs2520_2021spring.Common.{
  length, inr, sym, inl, dec_eq, subst, sum-replicate, ◌≢◌, sum-set, zero, suc, ℕ, ◌+◌, ◌-◌, ◌*◌,
  ◌/◌, ◌≤◌, ◌<◌, ◌≡◌, refl, Option, none, some, List, [], ◌∷◌, arith, replicate, get_or,
}
use cs2520_2021spring.Common.Int.{pos}
use cs2520_2021spring.Timeval.{Timeval, zero_time}
use cs2520_2021spring.RealTime.Packet.{Package, StreamPkt, nack_size}
use cs2520_2021spring.RealTime.Receiver.{
  held, slot, Receiver, Clocks, blank, init, size_of, run, deliver_due, nacks_before,
}
use cs2520_2021spring.RealTime.Receiver.Window.{Inv}
use cs2520_2021spring.RealTime.Receiver.Deliver.{Delivered, Stopped, deliver_due_lem}
use cs2520_2021spring.RealTime.Receiver.Accept.{init-Inv, Increasing, run_ordered}
use cs2520_2021spring.RealTime.Receiver.Nacks.{pad, missing, nacks_before_lem}
use cs2520_2021spring.RealTime.Estimator.{fresh, blend}
use cs2520_2021spring.RealTime.Estimator.Mean.{time, micros, blend_lem}
use cs2520_2021spring.Common.Text.{decimal}
use cs2520_2021spring.Common.Hosts.{from_usage, any}
use cs2520_2021spring.RealTime.Hosts.{names, addresses, send_addr, addresses_lem}
use cs2520_2021spring.RealTime.Usage.{srv_usage, stream_usage, rcv_usage, address}

abbrev data_at : ℕ → Package
data_at n = record blank { seq = pos n }

abbrev boot : Receiver
boot = init 0 (replicate 100 blank) blank

boot-Inv : Inv boot
unfolding size_of
boot-Inv = init-Inv 0 (replicate 100 blank) blank refl

abbrev clocks : Clocks
clocks = record { checked = zero_time; now = zero_time; received = zero_time; echoed = zero_time }

-- The packet 2, the packet 1, and a round that brings nothing.
abbrev arrivals : List (Timeval × Option (Clocks × Package))
arrivals =
    (zero_time, some (clocks, data_at 2))
    ∷ (zero_time, some (clocks, data_at 1))
    ∷ (zero_time, none)
    ∷ []

run_ordered_example :
    (x : Receiver × List StreamPkt) × (run arrivals boot ≡ some x) × Increasing 0 x.1 x.0.c_ack
unfolding size_of
run_ordered_example = run_ordered 0 (replicate 100 blank) blank arrivals refl

-- The packet 1 lies in its slot.
abbrev one_held : Receiver
one_held = record {
  size = 2;
  latency_window = zero_time;
  delta = fresh zero_time;
  rtt = fresh zero_time;
  c_ack = 0;
  buffersize = 1;
  buffer = 0 ∷ 1 ∷ [];
  window = blank ∷ data_at 1 ∷ [];
  echo = blank;
  rcvd_count = 1;
  highestseq = pos 1;
}

one_bits : (i : ℕ) → get_or (0 ∷ 1 ∷ []) i 0 ≤ 1
one_bits zero = omega arith
one_bits (suc zero) = omega arith
one_bits (suc (suc i)) = omega arith

one_alone : (j : ℕ) → 1 ≤ j → j < 1 + 2 → j ≢ 1 → slot one_held j ≡ 1 → ⊥
one_alone j lo hi q e =
    let two : j ≡ 2 = omega arith in absurd (omega (arith, subst (λ k. slot one_held k ≡ 1) two e))

one_held-Inv : Inv one_held
one_held-Inv = record {
  nonempty = omega arith;
  buffer_len = refl;
  window_len = refl;
  counted = omega (arith, sum-set (replicate {A = ℕ} 2 0) 1 1 (omega arith), sum-replicate 2);
  bits = one_bits;
  holds = λ j lo hi e. elim (dec_eq j 1) [
    | inl p ↦ subst (λ k. (held one_held k).seq ≡ pos k) (sym p) refl
    | inr q ↦ absurd (one_alone j lo hi q e)
  ];
}

deliver_due_lem_example :
    (x : Receiver × List StreamPkt) × (deliver_due zero_time one_held ≡ some x)
    × Inv x.0
    × Delivered zero_time one_held one_held.c_ack x.1 x.0.c_ack
    × Stopped zero_time x.0
deliver_due_lem_example = deliver_due_lem zero_time one_held one_held-Inv

nacks_before_lem_example :
    nacks_before 4 boot ≡ pad nack_size (missing (4 - (boot.c_ack + 1)) (boot.c_ack + 1) boot)
nacks_before_lem_example = nacks_before_lem 4 boot

blend_lem_example :
    (t : ℕ × ℕ) × (blend (time 1 500000) 3 (time 2 7) ≡ time t.0 t.1)
    × (micros t.0 t.1 ≡ (micros 1 500000 * 3 + micros 2 7) / (3 + 1))
blend_lem_example = blend_lem 1 500000 3 2 7

abbrev stream_of : ℕ → StreamPkt
stream_of n = record { seq = pos n; ts = zero_time; content = [] }

abbrev local_chars : List ℕ
local_chars = 46 ∷ 49 ∷ []

-- Each name has its own address here.
abbrev found_at : List ℕ → Option ℕ
found_at name = some (length name)

addresses_lem_example :
    let srv =
      from_usage
        (srv_usage ([] ∷ decimal 5 ∷ decimal 4000 ∷ decimal 5000 ∷ []))
        (λ a. some (names a)) in
    let rcv =
      from_usage
        (rcv_usage
          ([] ∷ decimal 5 ∷ address (49 ∷ local_chars) 5000 ∷ decimal 6000 ∷ decimal 1250 ∷ []))
        (addresses found_at) in
    let stream =
      from_usage
        (stream_usage ([] ∷ address (49 ∷ local_chars) 4000 ∷ decimal 20 ∷ []))
        (send_addr found_at) in
    (srv
      ≡ some (record {
        app = record { ip = any; port = 4000 };
        rcv = record { ip = any; port = 5000 };
      }))
    × (rcv
        ≡ some (record {
          sender = record { ip = 3; port = 5000 };
          localapp = record { ip = 3; port = 6000 };
        }))
    × (stream ≡ some (record { ip = 3; port = 4000 }))
addresses_lem_example =
    addresses_lem found_at [] 49 local_chars 5 5000 4000 6000 1250 20 3 9 (refl, (refl, (refl, tt)))
      refl refl (omega arith) (omega arith) (omega arith)
