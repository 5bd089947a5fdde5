-- ===== src/RealTime/Server/Slide.antt =====
-- p2/source/rt_srv.c: when the loop that slides the window ends.
use cs2520_2021spring.Common.{
  dec_eq, subst, ℕ, zero, suc, ◌+◌, ◌≤◌, ◌<◌, ◌≡◌, refl, ◌∙◌, sym, arith, true, false, Bool-cases,
  inl, inr, none, some,
}
use cs2520_2021spring.Timeval.{Timeval}
use cs2520_2021spring.RealTime.Server.{Server, is_expired, slide_head}
use cs2520_2021spring.Common.Int.{int_bound}

-- What a slot's time says does not depend on `head`.
is_expired-head :
    (now : Timeval) (i h : ℕ) (s : Server)
    → is_expired now i (record s { head = h }) ≡ is_expired now i s
unfolding is_expired
is_expired-head now i h s = refl

-- If the times of all slots of a window that is not empty have passed, the loop runs on for as long as
-- its `int`s do not overflow: a number of rounds with which `head` and the bound of the loop stay
-- below 2 ^ 31 is not enough for it to end.
pub slide_head_runs_on :
    (now : Timeval) (fuel : ℕ) (s : Server)
    → 0 < s.size
    → s.head + s.size + fuel < int_bound
    → ((k : ℕ) → is_expired now k s ≡ true)
    → slide_head fuel now s.head s ≡ none
unfolding slide_head
slide_head_runs_on now zero s h room all = refl
slide_head_runs_on now (suc fuel) s h room all =
    let ih =
      slide_head_runs_on now fuel (record s { head = s.head + 1 }) h (omega (arith, room))
        (λ k. is_expired-head now k (s.head + 1) s ∙ all k) in
    ground (arith, all s.head)

-- If the time of some slot from `head` on has not passed, the loop ends within any number of rounds
-- above the distance to that slot: the new `head` is the first such slot, and all before it have
-- passed.
pub slide_head_lem :
    (now : Timeval) (d fuel : ℕ) (s : Server)
    → d < fuel
    → 0 < s.size
    → is_expired now (s.head + d) s ≡ false
    → (h : ℕ) × (slide_head fuel now s.head s ≡ some (record s { head = h }))
      × (s.head ≤ h)
      × (h ≤ s.head + d)
      × (is_expired now h s ≡ false)
      × ((k : ℕ) → s.head ≤ k → k < h → is_expired now k s ≡ true)
unfolding slide_head
slide_head_lem now d zero s m p fresh = absurd (omega arith)
slide_head_lem now zero (suc fuel) s m p fresh =
    let f : is_expired now s.head s ≡ false =
      subst (λ t. is_expired now t s ≡ false) (omega arith) fresh in
    (s.head, ground (arith, f), omega arith, omega arith, f, λ k lo hi. absurd (omega arith))
slide_head_lem now (suc d) (suc fuel) s m p fresh = elim (Bool-cases (is_expired now s.head s)) [
  | inl old ↦
      let t : Server = record s { head = s.head + 1 } in
      let f : is_expired now (t.head + d) t ≡ false =
        is_expired-head now (t.head + d) t.head s
        ∙ subst (λ k. is_expired now k s ≡ false) (omega arith) fresh in
      let (h, e, lo, hi, g, all) = slide_head_lem now d fuel t (omega arith) p f in
      (
        h,
        ground (arith, e),
        omega arith,
        omega arith,
        sym (is_expired-head now h t.head s) ∙ g,
        λ k from upto. elim (dec_eq k s.head) [
          | inl q ↦ subst (λ j. is_expired now j s ≡ true) (sym q) old
          | inr q ↦ sym (is_expired-head now k t.head s) ∙ all k (omega arith) upto
        ],
      )
  | inr f ↦
      (s.head, ground (arith, f), omega arith, omega arith, f, λ k lo hi. absurd (omega arith))
]
