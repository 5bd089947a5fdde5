-- ===== src/RealTime/Stream/Monitor.antt =====
-- p2/source/udp_stream_rcv.c: its main loop, with the counts of RealTime/Stream, the greatest delay and the
-- reports. The clocks are arguments.
use cs2520_2021spring.Common.{
  ◌<◌, inr, ◌⊎◌, inl, ap, ℕ, suc, ◌+◌, ◌≡◌, refl, sym, ◌∙◌, subst, arith, false, if◌then◌else◌,
  ◌==◌, Option, none, some, List, [], ◌∷◌, length,
}
use cs2520_2021spring.Common.Int.{wrap, ℤ, pos, ◌+ℤ◌, ◌-ℤ◌, ◌*ℤ◌}
use cs2520_2021spring.Common.Double.{Double, IsOrdered}
use cs2520_2021spring.Timeval.{Timeval, timeradd, timersub, million}
use cs2520_2021spring.RealTime.Packet.{StreamPkt}
use cs2520_2021spring.RealTime.Delay.{
  larger-cases, oneway, larger, IsGreatest, larger-first, larger-IsGreatest,
}
use cs2520_2021spring.RealTime.Stream.{Counts, no_counts, count, count_all}

abbrev pub report_interval : Timeval
report_interval = record { sec = pos 5; usec = pos 0 }

abbrev pub max_data_len : ℕ
max_data_len = 1350

pub record Monitor {ℓ} (W : Type ℓ) : Type ℓ where
  pub counts : Counts
  pub max_oneway : W
  pub start_ts : Timeval
  pub next_report_time : Timeval

-- What a report prints.
pub record Report {ℓ} (W : Type ℓ) : Type ℓ where
  pub elapsed : W
  pub rate : W
  pub rcvd_count : ℕ
  pub out_of_order_count : ℕ
  pub last_rcvd : ℤ
  pub max_oneway : W

-- What `select` brings: a packet, with the clocks that the source reads, or the end of the wait.
pub data Event : Type 0 where
  arrives : Timeval → Timeval → StreamPkt → Event
  silent : Timeval → Event

module _ {ℓ} {W : Type ℓ} ⦃d : Double W⦄ where
  -- How long `select` waits; `none` is `NULL`.
  unfoldable pub timeout : Timeval → Monitor W → Option Timeval
  timeout now m = if m.counts.rcvd_count == 0 then none else some (timersub m.next_report_time now)

  unfoldable pub on_packet : Timeval → Timeval → StreamPkt → Monitor W → Monitor W
  on_packet started now p m =
      let first = m.counts.rcvd_count == 0 in
      let c = count p m.counts in
      record {
        counts = c;
        max_oneway = larger (c.rcvd_count == 1) (oneway now p.ts) m.max_oneway;
        start_ts = if first then started else m.start_ts;
        next_report_time = if first then timeradd started report_interval else m.next_report_time;
      }

  -- The bits that were sent up to the last packet, over the microseconds since the first.
  unfoldable pub report : Timeval → Monitor W → Report W
  report now m =
      let duration = (now.sec -ℤ m.start_ts.sec) *ℤ pos million +ℤ (now.usec -ℤ m.start_ts.usec) in
      record {
        elapsed = d.div (d.of_int duration) (d.of_int (pos million));
        rate =
            d.div (d.of_int (wrap (pos max_data_len *ℤ m.counts.last_rcvd *ℤ pos 8)))
              (d.of_int duration);
        rcvd_count = m.counts.rcvd_count;
        out_of_order_count = m.counts.out_of_order_count;
        last_rcvd = m.counts.last_rcvd;
        max_oneway = m.max_oneway;
      }

  unfoldable pub on_silence : Monitor W → Monitor W
  on_silence m = record m { next_report_time = timeradd m.next_report_time report_interval }

  unfoldable pub run : List Event → Monitor W → Monitor W × List (Report W)
  run [] m = (m, [])
  run (arrives started now p ∷ es) m = run es (on_packet started now p m)
  run (silent now ∷ es) m = let rest = run es (on_silence m) in (rest.0, report now m ∷ rest.1)

  -- The delays of the packets, with the last one first, in front of the earlier ones `xs`.
  abbrev pub delays : List Event → List W → List W
  delays [] xs = xs
  delays (arrives started now p ∷ es) xs = delays es (oneway now p.ts ∷ xs)
  delays (silent now ∷ es) xs = delays es xs

abbrev pub packets : List Event → List StreamPkt
packets [] = []
packets (arrives started now p ∷ es) = p ∷ packets es
packets (silent now ∷ es) = packets es

abbrev pub silences : List Event → ℕ
silences [] = 0
silences (arrives started now p ∷ es) = silences es
silences (silent now ∷ es) = suc (silences es)

module _ {ℓ} {W : Type ℓ} ⦃d : Double W⦄ where
  pub run-counts :
      (es : List Event) (m : Monitor W)
      → ((run es m).0.counts ≡ count_all (packets es) m.counts)
        × (length (run es m).1 ≡ silences es)
  unfolding run on_packet on_silence count_all
  run-counts [] m = (refl, refl)
  run-counts (arrives started now p ∷ es) m = run-counts es (on_packet started now p m)
  run-counts (silent now ∷ es) m = let ih = run-counts es (on_silence m) in (ih.0, ap suc ih.1)

  -- Before the first packet, or with the greatest of the delays at hand.
  abbrev Tracks : (W → Type 0) → Monitor W → List W → Type ℓ
  Tracks IsNumber m xs =
      ((m.counts.rcvd_count ≡ 0) × (xs ≡ []))
      ⊎ ((n : ℕ) × (m.counts.rcvd_count ≡ suc n)
          × IsNumber m.max_oneway
          × IsGreatest m.max_oneway xs)

  module _ {IsNumber : W → Type 0} (o : IsOrdered W IsNumber)
      (finite : (a b : Timeval) → IsNumber (oneway a b)) where
    on_packet-Tracks :
        (started now : Timeval) (p : StreamPkt) (m : Monitor W) (xs : List W)
        → Tracks IsNumber m xs
        → Tracks IsNumber (on_packet started now p m) (oneway now p.ts ∷ xs)
    unfolding on_packet count
    on_packet-Tracks started now p m xs (inl (none_yet, empty)) = inr (
      0,
      ap (λ k. k + 1) none_yet,
      subst (λ k. IsNumber (larger (k + 1 == 1) (oneway now p.ts) m.max_oneway)) (sym none_yet)
          (subst IsNumber (sym (larger-first (oneway now p.ts) m.max_oneway)) (finite now p.ts)),
      subst
          (λ k.
            IsGreatest (larger (k + 1 == 1) (oneway now p.ts) m.max_oneway) (oneway now p.ts ∷ xs))
          (sym none_yet)
          (subst (λ z. IsGreatest z (oneway now p.ts ∷ xs))
            (sym (larger-first (oneway now p.ts) m.max_oneway))
            (subst (λ ys. IsGreatest (oneway now p.ts) (oneway now p.ts ∷ ys)) (sym empty)
              ((o.lt_irrefl (oneway now p.ts), tt), ([], [], refl)))),
    )
    on_packet-Tracks started now p m xs (inr (n, some_yet, number, greatest)) = inr (
      suc n,
      ap (λ k. k + 1) some_yet ∙ omega arith,
      subst (λ b. IsNumber (larger b (oneway now p.ts) m.max_oneway)) (sym (not_first n m some_yet))
          (larger-number (oneway now p.ts) m.max_oneway (finite now p.ts) number),
      subst (λ b. IsGreatest (larger b (oneway now p.ts) m.max_oneway) (oneway now p.ts ∷ xs))
          (sym (not_first n m some_yet))
          (larger-IsGreatest o (oneway now p.ts) m.max_oneway xs number greatest),
    )
      where
        not_first :
            (n : ℕ) (m : Monitor W)
            → m.counts.rcvd_count ≡ suc n
            → (m.counts.rcvd_count + 1 == 1) ≡ false
        not_first n m e = ground (arith, e)

        larger-number : (x m : W) → IsNumber x → IsNumber m → IsNumber (larger false x m)
        larger-number x m hx hm = larger-cases false x m IsNumber hx hm

    run-Tracks :
        (es : List Event) (m : Monitor W) (xs : List W)
        → Tracks IsNumber m xs
        → Tracks IsNumber (run es m).0 (delays es xs)
    unfolding run on_silence
    run-Tracks [] m xs h = h
    run-Tracks (arrives started now p ∷ es) m xs h =
        run-Tracks es (on_packet started now p m) (oneway now p.ts ∷ xs)
          (on_packet-Tracks started now p m xs h)
    run-Tracks (silent now ∷ es) m xs h = run-Tracks es (on_silence m) xs h

    length-delays :
        (es : List Event) (xs : List W) → length (delays es xs) ≡ length (packets es) + length xs
    length-delays [] xs = omega arith
    length-delays (arrives started now p ∷ es) xs =
        omega (arith, length-delays es (oneway now p.ts ∷ xs))
    length-delays (silent now ∷ es) xs = length-delays es xs

    -- If the conversions give numbers, on which the comparison is an order: over every run from the start in
    -- which a packet comes, the counts are those of the packets, there is one report for each silence, and
    -- `max_oneway` is the greatest of all the delays, whatever it held at the start.
    pub run_lem :
        (es : List Event) (m : Monitor W)
        → m.counts ≡ no_counts
        → 0 < length (packets es)
        → let t = run es m in
          (t.0.counts ≡ count_all (packets es) no_counts)
          × (length t.1 ≡ silences es)
          × IsGreatest t.0.max_oneway (delays es [])
    unfolding no_counts
    run_lem es m start some_came =
        let (counts, reports) = run-counts es m in
        (
          counts ∙ ap (count_all (packets es)) start,
          reports,
          elim (run-Tracks es m [] (inl (ap (λ c. c.rcvd_count) start, refl))) [
            | inl (none_yet, empty) ↦
                absurd (omega (arith, some_came, length-delays es [], ap length empty))
            | inr (n, e, number, greatest) ↦ greatest
          ],
        )
