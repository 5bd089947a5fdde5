-- ===== src/FileCopy/Buffer.antt =====
-- The message buffers of p1/source/ncp.c and p1/source/rcv.c, whose text is one byte longer than a
-- block: when that last byte ends the text, and what that makes of a block that is received.
use cs2520_2021spring.Common.{
  take, subst, inr, inl, true, Bool-cases, ℕ, zero, suc, ◌≤◌, ◌≡◌, refl, ap, arith, List, [], ◌∷◌,
  ◌++◌, length, drop, ◌==◌,
}
use cs2520_2021spring.Common.Bytes.{overwrite, cstr, bzero, NoNul}

first_nul : (x : ℕ) (text : List ℕ) → cstr (x ∷ text) ≡ [] → (x == 0) ≡ true
unfolding cstr
first_nul x text e = ground arith

drop-nil : (k : ℕ) → drop {A = ℕ} k [] ≡ []
drop-nil zero = refl
drop-nil (suc k) = refl

empty_text : (text : List ℕ) → length text ≤ 0 → [] ≡ text
empty_text [] h = refl
empty_text (x ∷ text) h = absurd (omega arith)

-- Nothing is read past the place `k`.
abbrev pub IsEnded : ℕ → List ℕ → Type 0
IsEnded k text = cstr (drop k text) ≡ []

-- A datagram that reaches at most the place `k` leaves what lies behind it.
pub overwrite-IsEnded_short :
    (k : ℕ) (old d : List ℕ) → length d ≤ k → IsEnded k old → IsEnded k (overwrite old d)
unfolding overwrite
overwrite-IsEnded_short k [] d h e = e
overwrite-IsEnded_short k (b ∷ old) [] h e = e
overwrite-IsEnded_short zero (b ∷ old) (x ∷ d) h e = absurd (omega arith)
overwrite-IsEnded_short (suc k) (b ∷ old) (x ∷ d) h e =
    overwrite-IsEnded_short k old d (omega arith) e

-- A longer one that is itself ended there ends the buffer there.
pub overwrite-IsEnded :
    (k : ℕ) (old d : List ℕ) → IsEnded k old → IsEnded k d → IsEnded k (overwrite old d)
unfolding overwrite cstr
overwrite-IsEnded k [] d e f = e
overwrite-IsEnded k (b ∷ old) [] e f = e
overwrite-IsEnded zero (b ∷ old) (x ∷ d) e f = rw (first_nul x d f) refl
overwrite-IsEnded (suc k) (b ∷ old) (x ∷ d) e f = overwrite-IsEnded k old d e f

-- A block of at most `k` bytes and a NUL.
pub block-IsEnded : (k : ℕ) (block : List ℕ) → length block ≤ k → IsEnded k (block ++ 0 ∷ [])
unfolding cstr
block-IsEnded zero [] h = refl
block-IsEnded zero (x ∷ block) h = absurd (omega arith)
block-IsEnded (suc k) [] h = rw (drop-nil k) refl
block-IsEnded (suc k) (x ∷ block) h = block-IsEnded k block (omega arith)

pub cstr-IsEnded : (k : ℕ) (text : List ℕ) → IsEnded k text → IsEnded k (cstr text)
unfolding cstr
cstr-IsEnded zero text e = rw e refl
cstr-IsEnded (suc k) [] e = refl
cstr-IsEnded (suc k) (x ∷ text) e = ground (arith, cstr-IsEnded k text e)

pub bzero-IsEnded : (n k : ℕ) (text : List ℕ) → n ≤ k → IsEnded k text → IsEnded k (bzero n text)
unfolding bzero
bzero-IsEnded zero k text h e = e
bzero-IsEnded (suc n) k [] h e = e
bzero-IsEnded (suc n) zero (b ∷ text) h e = absurd (omega arith)
bzero-IsEnded (suc n) (suc k) (b ∷ text) h e = bzero-IsEnded n k text (omega arith) e

pub length-bzero : (n : ℕ) (text : List ℕ) → length (bzero n text) ≡ length text
unfolding bzero
length-bzero zero text = refl
length-bzero (suc n) [] = refl
length-bzero (suc n) (b ∷ text) = ap suc (length-bzero n text)

-- A text that fits, received into a buffer that is ended behind it, is read as it was sent.
pub cstr-overwrite_ended :
    (old d : List ℕ)
    → length (cstr d) ≤ length old
    → IsEnded (length (cstr d)) old
    → cstr (overwrite old d) ≡ cstr d
unfolding overwrite cstr
cstr-overwrite_ended [] d h e = empty_text (cstr d) h
cstr-overwrite_ended (b ∷ old) [] h e = e
cstr-overwrite_ended (b ∷ old) (x ∷ d) h e = elim (Bool-cases (x == 0)) [
  | inl p ↦ rw p refl
  | inr p ↦
      let g : cstr (x ∷ d) ≡ x ∷ cstr d = rw p refl in
      rw p (
        ap (λ t. x ∷ t)
          (cstr-overwrite_ended old d (omega (arith, ap length g))
            (subst (λ t. IsEnded (length t) (b ∷ old)) g e)))
]

pub cstr-NoNul : (text : List ℕ) → NoNul text → cstr text ≡ text
unfolding cstr
cstr-NoNul [] n = refl
cstr-NoNul (x ∷ text) n = ground (arith, cstr-NoNul text n.1)

pub NoNul-drop : (k : ℕ) (text : List ℕ) → NoNul text → NoNul (drop k text)
NoNul-drop zero text n = n
NoNul-drop (suc k) [] n = n
NoNul-drop (suc k) (x ∷ text) n = NoNul-drop k text n.1

pub NoNul-take : (k : ℕ) (text : List ℕ) → NoNul text → NoNul (take k text)
NoNul-take zero text n = tt
NoNul-take (suc k) [] n = tt
NoNul-take (suc k) (x ∷ text) n = (n.0, NoNul-take k text n.1)
