-- ===== src/RealTime/Stream.antt =====
-- p2/source/udp_stream.c and p2/source/udp_stream_rcv.c: the programs that make the stream and count it.
-- Here are the counts of the receiver's program, the pacing of the sender's with exact numbers, and its
-- wait; Stream/Monitor and Stream/Sender have the two loops, with the `double`s and the `int` that
-- overflows. The clock's answers are arguments.
pub mod Monitor
pub mod Sender
mod Tests
use cs2520_2021spring.Common.{
  inr, inl, Bool-cases, some, none, ap, Option, ◌∙◌, ◌++◌, ℕ, ◌+◌, ◌-◌, ◌*◌, ◌/◌, ◌≤◌, ◌<◌, ◌≡◌,
  refl, false, not, ltb, if◌then◌else◌, List, [], ◌∷◌, length, arith,
}
use cs2520_2021spring.Common.Int.{ℤ, pos, ◌+ℤ◌, ◌==ℤ◌}
use cs2520_2021spring.RealTime.Packet.{StreamPkt}
use cs2520_2021spring.RealTime.Receiver.Accept.{Increasing}

-- What the receiver of the stream counts.
pub record Counts : Type 0 where
  pub rcvd_count : ℕ
  pub last_rcvd : ℤ
  pub out_of_order_count : ℕ

unfoldable pub no_counts : Counts
no_counts = record { rcvd_count = 0; last_rcvd = pos 0; out_of_order_count = 0 }

unfoldable pub count : StreamPkt → Counts → Counts
count p c = record {
  rcvd_count = c.rcvd_count + 1;
  out_of_order_count =
      if not (p.seq ==ℤ (c.last_rcvd +ℤ pos 1))
      then c.out_of_order_count + 1
      else c.out_of_order_count;
  last_rcvd = p.seq;
}

unfoldable pub count_all : List StreamPkt → Counts → Counts
count_all [] c = c
count_all (p ∷ ps) c = count_all ps (count p c)

count-last : (p : StreamPkt) (c : Counts) → (count p c).last_rcvd ≡ p.seq
unfolding count
count-last p c = refl

count-rcvd : (p : StreamPkt) (c : Counts) → (count p c).rcvd_count ≡ c.rcvd_count + 1
unfolding count
count-rcvd p c = refl

count-gap :
    (p : StreamPkt) (c : Counts) (lo n : ℕ)
    → p.seq ≡ pos n
    → c.last_rcvd ≡ pos lo
    → lo < n
    → (count p c).out_of_order_count + 1 + lo ≤ c.out_of_order_count + n
unfolding count ◌+ℤ◌
count-gap p c lo n e l lt = rw (e, l) (ground arith)

-- From growing numbers every gap that is counted is at least one number that was not received.
counted :
    (lo hi : ℕ) (ps : List StreamPkt) (c : Counts)
    → Increasing lo ps hi
    → c.last_rcvd ≡ pos lo
    → let t = count_all ps c in
      (t.last_rcvd ≡ pos hi)
      × (t.rcvd_count ≡ c.rcvd_count + length ps)
      × (t.out_of_order_count + length ps + lo ≤ c.out_of_order_count + hi)
unfolding count_all
counted lo hi [] c e l = (l ∙ ap pos e, omega arith, omega arith)
counted lo hi (p ∷ ps) c (n, lt, e, rest) l =
    let ih = counted n hi ps (count p c) rest (count-last p c ∙ e) in
    let step = count-gap p c lo n e l lt in
    (ih.0, omega (arith, ih.1, count-rcvd p c), omega (arith, ih.2, step))

-- On packets with growing numbers from 1 up to `hi`, such as rt_rcv hands over, the counts are right: the
-- last number is `hi`, all packets are counted, and the gaps that are counted are no more than the packets
-- up to `hi` that did not come.
pub count_all_lem :
    (hi : ℕ) (ps : List StreamPkt)
    → Increasing 0 ps hi
    → let t = count_all ps no_counts in
      (t.last_rcvd ≡ pos hi) × (t.rcvd_count ≡ length ps) × (t.out_of_order_count + length ps ≤ hi)
unfolding no_counts
count_all_lem hi ps h =
    let t = counted 0 hi ps no_counts h refl in (t.0, omega (arith, t.1), omega (arith, t.2))

abbrev pub target_rate : ℕ
target_rate = 8

-- How long to wait behind packet `seq` of `bytes` bytes, sent `duration` microseconds after the start,
-- if the bits per microsecond are above the target.
unfoldable pub delay : ℕ → ℕ → ℕ → ℕ
delay bytes seq duration =
    if ltb (target_rate * duration) (bytes * seq * 8)
    then bytes * seq * 8 / target_rate - duration
    else 0

-- With the wait the stream keeps to the target rate, and it does not wait where it is not above it.
pub delay_lem :
    (bytes seq duration : ℕ)
    → let d = delay bytes seq duration in
      (bytes * seq * 8 ≤ target_rate * (duration + d))
      × (bytes * seq * 8 ≤ target_rate * duration → d ≡ 0)
unfolding delay
delay_lem bytes seq duration = ground arith

abbrev pub slept : ℕ → Option (List ℕ × ℕ) → Option (List ℕ × ℕ)
slept usec none = none
slept usec (some (calls, diff)) = some (usec ∷ calls, diff)

-- `while(diff < usec)`, with the calls of `usleep`, the last `diff`, and what the clock shows in each
-- round; `none` where the clock shows no more.
unfoldable pub isleep : ℕ → ℕ → List ℕ → Option (List ℕ × ℕ)
isleep usec diff [] = if ltb diff usec then none else some ([], diff)
isleep usec diff (d ∷ ds) =
    let rest = isleep usec d ds in
    if ltb diff usec
    then (if ltb 200 (usec - diff) then slept (usec - 20) rest else rest)
    else some ([], diff)

slept_lem :
    (usec u : ℕ) (r : Option (List ℕ × ℕ))
    → (x : List ℕ × ℕ) × (r ≡ some x) × (usec ≤ x.1)
    → (x : List ℕ × ℕ) × (slept u r ≡ some x) × (usec ≤ x.1)
slept_lem usec u r (x, e, le) = ((u ∷ x.0, x.1), rw e refl, le)

-- The wait ends once the clock has shown the time, and not before it.
pub isleep_lem :
    (usec diff d : ℕ) (ds : List ℕ)
    → usec ≤ d
    → (x : List ℕ × ℕ) × (isleep usec diff (ds ++ d ∷ []) ≡ some x) × (usec ≤ x.1)
unfolding isleep
isleep_lem usec diff d [] h = elim (Bool-cases (ltb diff usec)) [
  | inl less ↦
      let f : ltb d usec ≡ false = ground arith in
      elim (Bool-cases (ltb 200 (usec - diff))) [
        | inl long ↦ (((usec - 20) ∷ [], d), rw (less, long, f) refl, h)
        | inr short ↦ (([], d), rw (less, short, f) refl, h)
      ]
  | inr enough ↦ (([], diff), rw enough refl, ground arith)
]
isleep_lem usec diff d (c ∷ ds) h = elim (Bool-cases (ltb diff usec)) [
  | inl less ↦ elim (Bool-cases (ltb 200 (usec - diff))) [
    | inl long ↦ rw (less, long) (slept_lem usec (usec - 20) _ (isleep_lem usec c d ds h))
    | inr short ↦ rw (less, short) (isleep_lem usec c d ds h)
  ]
  | inr enough ↦ (([], diff), rw enough refl, ground arith)
]
