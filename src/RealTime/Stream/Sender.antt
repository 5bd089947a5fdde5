-- ===== src/RealTime/Stream/Sender.antt =====
-- p2/source/udp_stream.c: its loop over the packets. The clock of each packet is an argument, as is what the
-- array `data` holds. The number of bits is computed in `int`, with the wrap-around of two's complement.
use cs2520_2021spring.Common.{
  Bool, Bool-cases, List, Option, [], ap, ap₂, arith, false, if◌then◌else◌, inl, inr, leb, length,
  length-map, ltb, map, none, refl, some, subst, suc, sym, true, zero, ℕ, ◌*◌, ◌+◌, ◌-◌, ◌<◌, ◌∙◌,
  ◌∷◌, ◌≡◌, ◌≤◌,
}
use cs2520_2021spring.Common.Int.{
  leb_ℤ, wrap, int_bound, ℤ, pos, negsuc, pos_part, ◌+ℤ◌, ◌-ℤ◌, ◌*ℤ◌, ◌/ℤ◌, ltb_ℤ,
}
use cs2520_2021spring.Common.Double.{Double}
use cs2520_2021spring.Timeval.{Timeval, million}
use cs2520_2021spring.RealTime.Packet.{StreamPkt}
use cs2520_2021spring.RealTime.Stream.{
  count_all_lem, no_counts, Increasing, count_all, delay, target_rate,
}

-- `MAX_DATA_LEN * send_pkt.seq * 8`
unfoldable pub bits : ℕ → ℤ
bits seq = wrap (pos (1350 * seq * 8))

unfoldable pub elapsed : Timeval → Timeval → ℤ
elapsed now start = (now.sec -ℤ start.sec) *ℤ pos million +ℤ (now.usec -ℤ start.usec)

-- A packet with the time it is sent at, the wait behind it, and whether the rate is printed.
pub record Sent : Type 0 where
  pub pkt : StreamPkt
  pub wait : Option ℕ
  pub reports : Bool

-- `next_report` after a round that prints the rate if the time is past it.
abbrev next_time : Timeval → Timeval → ℤ → ℤ
next_time now start next_report =
    if ltb_ℤ next_report (elapsed now start) then next_report +ℤ pos 5_000_000 else next_report

module _ {ℓ} (W : Type ℓ) ⦃d : Double W⦄ where
  -- Whether the rate up to now is above the target.
  unfoldable pub is_fast : ℕ → ℤ → Bool
  is_fast seq duration =
      d.lt (d.of_int (pos target_rate)) (d.div (d.of_int (bits seq)) (d.of_int duration))

  -- The time that `isleep` is called with, if it is called.
  unfoldable pub int_delay : ℕ → ℤ → Option ℕ
  int_delay seq duration =
      let wait = wrap (bits seq /ℤ target_rate -ℤ duration) in
      if is_fast seq duration
      then (if ltb_ℤ (pos 0) wait then some (pos_part wait) else none)
      else none

  -- What a round sends, with its clock.
  abbrev send : List ℕ → Timeval → Timeval → ℤ → ℕ → Sent
  send content start now next_report seq =
      let duration = elapsed now start in
      record {
        pkt = record { seq = wrap (pos seq); ts = now; content = content };
        wait = int_delay seq duration;
        reports = ltb_ℤ next_report duration;
      }

  abbrev in_front : Sent → Option (List Sent) → Option (List Sent)
  in_front p none = none
  in_front p (some ps) = some (p ∷ ps)

  -- The rounds from `seq` on, with the time of the next report. `seq` counts the rounds, and the program's
  -- `int` is what is left of it in 32 bits. The fuel is a number of rounds; `none` means that it ran out.
  unfoldable pub stream : ℤ → List ℕ → Timeval → (ℕ → Timeval) → ℤ → ℕ → ℕ → Option (List Sent)
  stream num_msgs content start clock next_report zero seq = none
  stream num_msgs content start clock next_report (suc fuel) seq =
      let now = clock seq in
      let rest =
        stream num_msgs content start clock (next_time now start next_report) fuel (seq + 1) in
      if leb_ℤ (wrap (pos seq)) num_msgs
      then in_front (send content start now next_report seq) rest
      else some []

  -- `for (send_pkt.seq = 1; send_pkt.seq <= Num_msgs; send_pkt.seq++)`
  unfoldable pub send_stream : ℕ → ℤ → List ℕ → Timeval → (ℕ → Timeval) → Option (List Sent)
  send_stream fuel num_msgs content start clock =
      stream num_msgs content start clock (pos 5_000_000) fuel 1

  -- The comparison of the target with a quotient of an `int` by a number that is not negative: a `double`
  -- holds both, and the quotient is rounded by less than its distance from 8. By 0 it is infinite, or not a
  -- number.
  pub record IsExact : Type 0 where
    pub lt_quotient :
        (n k : ℕ)
        → n < int_bound
        → d.lt (d.of_int (pos target_rate)) (d.div (d.of_int (pos n)) (d.of_int (pos k)))
          ≡ ltb (target_rate * k) n
    pub lt_negative :
        (n k : ℕ)
        → d.lt (d.of_int (pos target_rate)) (d.div (d.of_int (negsuc n)) (d.of_int (pos k))) ≡ false

-- Up to packet 198841 the number of bits is an `int`; behind it, up to packet 397682, it is negative.
bits-small :
    (seq : ℕ) → seq ≤ 198_841 → (bits seq ≡ pos (1350 * seq * 8)) × (1350 * seq * 8 < int_bound)
unfolding bits wrap
bits-small seq h = ground arith

bits-negative : (seq : ℕ) → 198_842 ≤ seq → seq ≤ 397_682 → (n : ℕ) × (bits seq ≡ negsuc n)
unfolding bits wrap
bits-negative seq l h = (4_294_967_295 - 1350 * seq * 8, ground arith)

wait_lem :
    (seq duration : ℕ)
    → seq ≤ 198_841
    → 8 * duration < 1350 * seq * 8
    → (wrap (pos (1350 * seq * 8) /ℤ target_rate -ℤ pos duration) ≡ pos (1350 * seq - duration))
      × (0 < 1350 * seq - duration)
unfolding wrap ◌/ℤ◌ ◌-ℤ◌
wait_lem seq duration h l = ground arith

module _ {ℓ} (W : Type ℓ) ⦃d : Double W⦄ (exact : IsExact W) where
  is_fast-small :
      (seq duration : ℕ)
      → seq ≤ 198_841
      → is_fast W seq (pos duration) ≡ ltb (target_rate * duration) (1350 * seq * 8)
  unfolding is_fast
  is_fast-small seq duration h =
      let b = bits-small seq h in
      ap (λ x. d.lt (d.of_int (pos target_rate)) (d.div (d.of_int x) (d.of_int (pos duration)))) b.0
      ∙ exact.lt_quotient (1350 * seq * 8) duration b.1

  is_fast-negative :
      (seq duration n : ℕ) → bits seq ≡ negsuc n → is_fast W seq (pos duration) ≡ false
  unfolding is_fast
  is_fast-negative seq duration n e =
      ap (λ x. d.lt (d.of_int (pos target_rate)) (d.div (d.of_int x) (d.of_int (pos duration)))) e
      ∙ exact.lt_negative n duration

  -- Up to packet 198841 the program waits as the exact computation says.
  pub int_delay-small :
      (seq duration : ℕ)
      → seq ≤ 198_841
      → int_delay W seq (pos duration)
        ≡ (let w = delay 1350 seq duration in if ltb 0 w then some w else none)
  unfolding int_delay delay
  int_delay-small seq duration h =
      elim (Bool-cases (ltb (target_rate * duration) (1350 * seq * 8))) [
        | inl fast ↦
            let w = wait_lem seq duration h (ground arith) in
            rw (is_fast-small seq duration h, fast, (bits-small seq h).0, w.0) (ground (arith, w.1))
        | inr slow ↦ rw (is_fast-small seq duration h, slow) refl
      ]

  -- Behind it, up to packet 397682, the number of bits overflows, and the program never waits.
  pub int_delay-overflow :
      (seq duration : ℕ) → 198_842 ≤ seq → seq ≤ 397_682 → int_delay W seq (pos duration) ≡ none
  unfolding int_delay
  int_delay-overflow seq duration l h =
      let n = bits-negative seq l h in rw (is_fast-negative seq duration n.0 n.1) refl

  -- For the packets whose number of bits fits 32 bits: up to packet 198841 the program waits as the exact
  -- computation says, and behind it the `int` overflows and it does not wait at all.
  pub int_delay_lem :
      (seq duration : ℕ)
      → seq ≤ 397_682
      → int_delay W seq (pos duration) ≡ (
          let w = delay 1350 seq duration in
          if leb seq 198_841 then (if ltb 0 w then some w else none) else none)
  int_delay_lem seq duration h = elim (Bool-cases (leb seq 198_841)) [
    | inl small ↦ rw small (int_delay-small seq duration (ground arith))
    | inr large ↦ rw large (int_delay-overflow seq duration (ground arith) h)
  ]

-- The numbers from `lo` on, `n` of them.
abbrev pub from_on : ℕ → ℕ → List ℕ
from_on lo zero = []
from_on lo (suc n) = lo ∷ from_on (lo + 1) n

length-from_on : (lo n : ℕ) → length (from_on lo n) ≡ n
length-from_on lo zero = refl
length-from_on lo (suc n) = ap suc (length-from_on (lo + 1) n)

goes_on :
    (num_msgs : ℤ) (seq : ℕ)
    → 0 < seq
    → seq ≤ pos_part num_msgs
    → pos_part num_msgs + 1 < int_bound
    → (wrap (pos seq) ≡ pos seq) × (leb_ℤ (wrap (pos seq)) num_msgs ≡ true)
unfolding wrap
goes_on (pos n) seq low high fits = ground arith
goes_on (negsuc n) seq low high fits = absurd (omega arith)

stops :
    (num_msgs : ℤ)
    → pos_part num_msgs + 1 < int_bound
    → leb_ℤ (wrap (pos (pos_part num_msgs + 1))) num_msgs ≡ false
unfolding wrap
stops (pos n) fits = ground arith
stops (negsuc n) fits = ground arith

module _ {ℓ} (W : Type ℓ) ⦃d : Double W⦄ where
  -- `n` more packets behind the number `lo`.
  abbrev Sends : (ℕ → Timeval) → ℕ → ℕ → Option (List Sent) → Type 0
  Sends clock lo n o =
      (sent : List Sent) × (o ≡ some sent)
      × (map (λ s. s.pkt.seq) sent ≡ map pos (from_on (lo + 1) n))
      × (map (λ s. s.pkt.ts) sent ≡ map clock (from_on (lo + 1) n))
      × Increasing lo (map Sent.pkt sent) (lo + n)

  stream-Sends :
      (num_msgs : ℤ) (content : List ℕ) (start : Timeval) (clock : ℕ → Timeval) (next_report : ℤ)
      (fuel lo n : ℕ)
      → pos_part num_msgs + 1 < int_bound
      → lo + n ≡ pos_part num_msgs
      → n < fuel
      → Sends clock lo n (stream W num_msgs content start clock next_report fuel (lo + 1))
  unfolding stream
  stream-Sends num_msgs content start clock next_report zero lo n fits e h = absurd (omega arith)
  stream-Sends num_msgs content start clock next_report (suc fuel) lo zero fits e h =
      let at_end : lo ≡ pos_part num_msgs = omega arith in
      subst
        (λ k.
          Sends clock lo zero
            (stream W num_msgs content start clock next_report (suc fuel) (k + 1)))
        (sym at_end) ([], rw (stops num_msgs fits) refl, refl, refl, omega arith)
  stream-Sends num_msgs content start clock next_report (suc fuel) lo (suc n) fits e h =
      let (same, more) = goes_on num_msgs (lo + 1) (omega arith) (omega arith) fits in
      let now = clock (lo + 1) in
      let (sent, ran, numbers, times, up) =
        stream-Sends num_msgs content start clock (next_time now start next_report) fuel (lo + 1) n
          fits (omega arith) (omega arith) in
      (
        send W content start now next_report (lo + 1) ∷ sent,
        rw (more, ran) refl,
        ap₂ (λ x xs. x ∷ xs) same numbers,
        ap (λ xs. now ∷ xs) times,
        (
          lo + 1,
          omega arith,
          same,
          subst (Increasing (lo + 1) (map Sent.pkt sent)) (omega arith) up,
        ),
      )

  -- For a `Num_msgs` below 2^31 - 1, fuel above it, and any clock: the loop ends after one round for each
  -- message, none where `Num_msgs` is not positive, and has sent the numbers 1 to `Num_msgs`, each once and
  -- in order, each with its round's time; where all of it arrives in order, the receiver's program counts
  -- every packet and no gap.
  pub stream_lem :
      (fuel : ℕ) (num_msgs : ℤ) (content : List ℕ) (start : Timeval) (clock : ℕ → Timeval)
      → pos_part num_msgs + 1 < int_bound
      → pos_part num_msgs < fuel
      → (sent : List Sent) × (send_stream W fuel num_msgs content start clock ≡ some sent)
        × (map (λ s. s.pkt.seq) sent ≡ map pos (from_on 1 (pos_part num_msgs)))
        × (map (λ s. s.pkt.ts) sent ≡ map clock (from_on 1 (pos_part num_msgs)))
        × ((count_all (map Sent.pkt sent) no_counts).last_rcvd ≡ pos (pos_part num_msgs))
        × ((count_all (map Sent.pkt sent) no_counts).rcvd_count ≡ pos_part num_msgs)
        × ((count_all (map Sent.pkt sent) no_counts).out_of_order_count ≡ 0)
  unfolding send_stream
  stream_lem fuel num_msgs content start clock fits enough =
      let n = pos_part num_msgs in
      let (sent, ran, numbers, times, up) =
        stream-Sends num_msgs content start clock (pos 5_000_000) fuel 0 n fits (omega arith)
          enough in
      let (last, count, gaps) =
        count_all_lem n (map Sent.pkt sent)
          (subst (Increasing 0 (map Sent.pkt sent)) (omega arith) up) in
      let len : length (map Sent.pkt sent) ≡ n =
        length-map Sent.pkt sent
        ∙ sym (length-map (λ s. s.pkt.seq) sent)
        ∙ ap length numbers
        ∙ length-map pos (from_on 1 n)
        ∙ length-from_on 1 n in
      (sent, ran, numbers, times, last, count ∙ len, omega (arith, gaps, len))
