-- ===== src/Common/Bytes.antt =====
-- Byte buffers: what `recvfrom`, `bzero` and `%s` of the C library do to a `char` array.
use Prim.Native.Nat.{ℕ, zero, suc}
use Prim.Native.Nat.{◌≤◌}
use mathlib.Core.Path.{◌≡◌, refl, ap}
use mathlib.Core.Logic.{◌≢◌}
use native.Mathlib.Omega.{arith}
use cs2520_2021spring.Common.Lists.{length, drop}
use mathlib.Core.List.{List, [], ◌∷◌, ◌++◌}
use cs2520_2021spring.Common.Tests.{◌==◌, if◌then◌else◌}

-- A datagram lands at the front of the buffer; what it does not reach stays, what does not fit is
-- cut off.
unfoldable pub overwrite : List ℕ → List ℕ → List ℕ
overwrite [] d = []
overwrite (b ∷ bs) [] = b ∷ bs
overwrite (b ∷ bs) (x ∷ d) = x ∷ overwrite bs d

-- The text up to the first NUL: what `%s` prints and `strlen` measures.
unfoldable pub cstr : List ℕ → List ℕ
cstr [] = []
cstr (x ∷ xs) = if x == 0 then [] else x ∷ cstr xs

unfoldable pub bzero : ℕ → List ℕ → List ℕ
bzero zero bs = bs
bzero (suc n) [] = []
bzero (suc n) (b ∷ bs) = 0 ∷ bzero n bs

-- No byte of the text is NUL.
abbrev pub NoNul : List ℕ → Type 0
NoNul [] = Unit
NoNul (x ∷ xs) = (x ≢ 0) × NoNul xs

-- A text that is sent with its NUL is read back as it was sent, whatever the buffer held.
pub cstr-overwrite_terminated :
    (old text rest : List ℕ)
    → NoNul text
    → length text ≤ length old
    → cstr (overwrite old (text ++ 0 ∷ rest)) ≡ text
unfolding overwrite cstr
cstr-overwrite_terminated [] [] rest n h = refl
cstr-overwrite_terminated (b ∷ old) [] rest n h = refl
cstr-overwrite_terminated [] (x ∷ text) rest n h = absurd (omega arith)
cstr-overwrite_terminated (b ∷ old) (x ∷ text) rest n h =
    ground (arith, cstr-overwrite_terminated old text rest n.1 (omega arith))

-- A text that is sent without its NUL is read back with what the buffer held behind it.
pub cstr-overwrite_unterminated :
    (old text : List ℕ)
    → NoNul text
    → length text ≤ length old
    → cstr (overwrite old text) ≡ text ++ cstr (drop (length text) old)
unfolding overwrite cstr
cstr-overwrite_unterminated [] [] n h = refl
cstr-overwrite_unterminated (b ∷ old) [] n h = refl
cstr-overwrite_unterminated [] (x ∷ text) n h = absurd (omega arith)
cstr-overwrite_unterminated (b ∷ old) (x ∷ text) n h =
    ground (arith, cstr-overwrite_unterminated old text n.1 (omega arith))

-- A text with a NUL behind it, put into a buffer that has the room, reads as the text up to its
-- own first NUL.
pub cstr-overwrite_nul :
    (old text : List ℕ)
    → suc (length text) ≤ length old
    → cstr (overwrite old (text ++ 0 ∷ [])) ≡ cstr text
unfolding overwrite cstr
cstr-overwrite_nul [] text h = absurd (omega arith)
cstr-overwrite_nul (b ∷ old) [] h = refl
cstr-overwrite_nul (b ∷ old) (x ∷ text) h = rw (cstr-overwrite_nul old text (omega arith)) refl

pub cstr-cstr : (text : List ℕ) → cstr (cstr text) ≡ cstr text
unfolding cstr
cstr-cstr [] = refl
cstr-cstr (x ∷ text) = ground (arith, cstr-cstr text)

pub length-overwrite : (old d : List ℕ) → length (overwrite old d) ≡ length old
unfolding overwrite
length-overwrite [] d = refl
length-overwrite (b ∷ old) [] = refl
length-overwrite (b ∷ old) (x ∷ d) = ap suc (length-overwrite old d)

-- What follows a NUL is not part of the text.
pub cstr-append_nul : (text behind : List ℕ) → NoNul text → cstr (text ++ 0 ∷ behind) ≡ text
unfolding cstr
cstr-append_nul [] behind n = refl
cstr-append_nul (x ∷ text) behind n = ground (arith, cstr-append_nul text behind n.1)
