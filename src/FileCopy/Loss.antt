-- ===== src/FileCopy/Loss.antt =====
-- p1/source/sendto_dbg.c, of which p2/source has a copy: a `sendto` that drops some of the datagrams and
-- claims success. `cutoff` comes from `sendto_dbg_init`, which computes it in `double`; `random` is what
-- `rand` returns; the seed is left out.
use cs2520_2021spring.Common.{
  inr, ◌∙◌, inl, dec_eq, ℕ, zero, suc, ◌+◌, ◌%◌, ◌≤◌, ◌<◌, ◌≡◌, refl, Bool, true, false, ◌&&◌, ltb,
  leb, if◌then◌else◌, arith,
}
use cs2520_2021spring.Common.Int.{ℤ, pos}

-- `decision = rand() & 0xff`
unfoldable pub decision : ℕ → ℕ
decision random = random % 256

unfoldable pub drops : ℕ → ℕ → Bool
drops cutoff d = ltb 0 cutoff && leb d cutoff

-- The answer of `sendto_dbg`, and whether the datagram went out; `sent` is the answer of `sendto`.
unfoldable pub sendto_dbg : ℕ → ℕ → ℕ → ℤ → ℤ × Bool
unfolding decision drops
sendto_dbg cutoff random len sent =
    if drops cutoff (decision random) then (pos len, false) else (sent, true)

-- How many of the decisions below `n` drop the datagram.
abbrev pub dropped : ℕ → ℕ → ℕ
dropped cutoff zero = 0
dropped cutoff (suc n) = let rest = dropped cutoff n in if drops cutoff n then suc rest else rest

dropped_below : (cutoff n : ℕ) → 0 < cutoff → n ≤ suc cutoff → dropped cutoff n ≡ n
unfolding drops
dropped_below cutoff zero h le = refl
dropped_below cutoff (suc n) h le = ground (arith, dropped_below cutoff n h (omega arith))

dropped_past : (cutoff n : ℕ) → 0 < cutoff → suc cutoff ≤ n → dropped cutoff n ≡ cutoff + 1
unfolding drops
dropped_past cutoff zero h le = absurd (omega arith)
dropped_past cutoff (suc n) h le = elim (dec_eq n cutoff) [
  | inl p ↦ dropped_below cutoff (suc n) h (omega arith) ∙ omega arith
  | inr q ↦ ground (arith, dropped_past cutoff n h (omega arith))
]

-- Of the 256 decisions, `cutoff + 1` drop the datagram, for a cutoff from 1 up to 255: for 63, which is
-- what 25 percent gives, exactly a quarter.
pub dropped_lem : (cutoff : ℕ) → 0 < cutoff → cutoff < 256 → dropped cutoff 256 ≡ cutoff + 1
dropped_lem cutoff h lt = dropped_past cutoff 256 h (omega arith)

-- A datagram is dropped only with an answer that claims it was sent whole, and one that is not dropped has
-- the answer of `sendto`; with a cutoff of 0 nothing is dropped.
pub sendto_dbg_lem :
    (cutoff random len : ℕ) (sent : ℤ)
    → let r = sendto_dbg cutoff random len sent in
      (r.1 ≡ false → (r.0 ≡ pos len) × (0 < cutoff) × (random % 256 ≤ cutoff))
      × (r.1 ≡ true → r.0 ≡ sent)
      × (cutoff ≡ 0 → r.1 ≡ true)
unfolding sendto_dbg
sendto_dbg_lem cutoff random len sent = ground arith
