-- ===== src/Common/Text.antt =====
-- What the programs take from the C library to read their command lines, on lists of characters: `strtok`,
-- `atoi`, and `sscanf` with "%d"; and the decimal form of a number.
use Prim.Native.Nat.{ℕ, zero, suc, ◌+◌, ◌-◌, ◌*◌, ◌/◌, ◌%◌, ◌<◌, ◌≤◌}
use mathlib.Core.Path.{◌≡◌, refl, ap, ◌∙◌}
use mathlib.Core.Bool.{Bool, true, false, ◌&&◌, ◌||◌}
use mathlib.Core.Logic.{inl, inr}
use mathlib.Core.Option.{Option, none, some}
use mathlib.Core.List.{List, [], ◌∷◌, ◌++◌}
use native.Mathlib.Omega.{arith}
use cs2520_2021spring.Common.Tests.{Bool-cases, leb, ltb, ◌==◌, if◌then◌else◌}
use cs2520_2021spring.Common.Lists.{All}
use cs2520_2021spring.Common.Int.{ℤ, pos, sub_ℕ}

module _ (is_delim : ℕ → Bool) where
  -- `strtok` passes over delimiters,
  unfoldable pub skip : List ℕ → List ℕ
  skip [] = []
  skip (c ∷ cs) = if is_delim c then skip cs else c ∷ cs

  -- and ends its token at the next one, behind which the next call goes on.
  unfoldable pub token : List ℕ → List ℕ × List ℕ
  token [] = ([], [])
  token (c ∷ cs) = if is_delim c then ([], cs) else (c ∷ (token cs).0, (token cs).1)

  -- `none` is `NULL`.
  abbrev token_of : List ℕ → Option (List ℕ × List ℕ)
  token_of [] = none
  token_of (c ∷ cs) = some (token (c ∷ cs))

  unfoldable pub strtok : List ℕ → Option (List ℕ × List ℕ)
  strtok s = token_of (skip s)

  abbrev pub Plain : ℕ → Type 0
  Plain c = is_delim c ≡ false

  token-end : (t : List ℕ) → All Plain t → token t ≡ (t, [])
  unfolding token
  token-end [] h = refl
  token-end (c ∷ cs) h = rw (h.0, token-end cs h.1) refl

  token-append :
      (t rest : List ℕ) (d : ℕ)
      → All Plain t
      → is_delim d ≡ true
      → token (t ++ (d ∷ rest)) ≡ (t, rest)
  unfolding token
  token-append [] rest d h delim = rw delim refl
  token-append (c ∷ cs) rest d h delim = rw (h.0, token-append cs rest d h.1 delim) refl

  skip-Plain : (c : ℕ) (t : List ℕ) → Plain c → skip (c ∷ t) ≡ c ∷ t
  unfolding skip
  skip-Plain c t h = rw h refl

  strtok-Plain : (c : ℕ) (t : List ℕ) → Plain c → strtok (c ∷ t) ≡ some (token (c ∷ t))
  unfolding strtok
  strtok-Plain c t h = ap token_of (skip-Plain c t h)

  pub strtok-append :
      (c : ℕ) (t rest : List ℕ) (d : ℕ)
      → All Plain (c ∷ t)
      → is_delim d ≡ true
      → strtok ((c ∷ t) ++ (d ∷ rest)) ≡ some (c ∷ t, rest)
  strtok-append c t rest d h delim =
      strtok-Plain c (t ++ (d ∷ rest)) h.0 ∙ ap some (token-append (c ∷ t) rest d h delim)

  pub strtok-end : (c : ℕ) (t : List ℕ) → All Plain (c ∷ t) → strtok (c ∷ t) ≡ some (c ∷ t, [])
  strtok-end c t h = strtok-Plain c t h.0 ∙ ap some (token-end (c ∷ t) h)

abbrev is_digit : ℕ → Bool
is_digit c = leb 48 c && leb c 57

abbrev is_space : ℕ → Bool
is_space c = c == 32 || (leb 9 c && leb c 13)

unfoldable pub digits : ℕ → List ℕ → ℕ
digits n [] = n
digits n (c ∷ cs) = if is_digit c then digits (n * 10 + (c - 48)) cs else n

-- `atoi`: white space, a sign, and digits up to the first other character.
unfoldable pub atoi : List ℕ → ℤ
atoi [] = pos 0
atoi (c ∷ cs) =
    let rest = atoi cs in
    if is_space c
    then rest
    else if c == 45
    then sub_ℕ 0 (digits 0 cs)
    else if c == 43
    then pos (digits 0 cs)
    else pos (digits 0 (c ∷ cs))

-- A number with at least one digit.
abbrev number : (ℕ → ℤ) → List ℕ → Option ℤ
number sign [] = none
number sign (c ∷ cs) = if is_digit c then some (sign (digits 0 (c ∷ cs))) else none

-- `sscanf` with "%d", where it returns 1.
unfoldable pub scan_int : List ℕ → Option ℤ
scan_int [] = none
scan_int (c ∷ cs) =
    let rest = scan_int cs in
    if is_space c
    then rest
    else if c == 45
    then number (sub_ℕ 0) cs
    else if c == 43
    then number pos cs
    else number pos (c ∷ cs)

-- How a `Usage` ends: with `exit(0)`, in `atoi(NULL)`, which is undefined, or with the arguments.
pub data Outcome {ℓ} (A : Type ℓ) : Type ℓ where
  exits undefined : Outcome A
  parsed : A → Outcome A

-- The next token, or the outcome where there is none.
abbrev pub next_token {ℓ} :
    {A : Type ℓ} → Outcome A → Option (List ℕ × List ℕ) → (List ℕ → List ℕ → Outcome A) → Outcome A
next_token o none k = o
next_token o (some (t, rest)) k = k t rest

-- The next number, or `exit(0)`.
abbrev pub next_int {ℓ} : {A : Type ℓ} → Option ℤ → (ℤ → Outcome A) → Outcome A
next_int none k = exits
next_int (some n) k = k n

-- The decimal form.
unfoldable pub decimal_onto : ℕ → ℕ → List ℕ → List ℕ
decimal_onto zero n acc = acc
decimal_onto (suc fuel) n acc =
    let rest = decimal_onto fuel (n / 10) ((48 + n % 10) ∷ acc) in
    if ltb n 10 then (48 + n) ∷ acc else rest

abbrev pub decimal : ℕ → List ℕ
decimal n = decimal_onto (n + 1) n []

abbrev pub IsDigit : ℕ → Type 0
IsDigit c = (48 ≤ c) × (c ≤ 57)

abbrev IsNumeral : List ℕ → Type 0
IsNumeral [] = ⊥
IsNumeral (c ∷ cs) = IsDigit c × All IsDigit cs

decimal_onto-IsNumeral :
    (fuel n : ℕ) (acc : List ℕ) → n < fuel → All IsDigit acc → IsNumeral (decimal_onto fuel n acc)
unfolding decimal_onto
decimal_onto-IsNumeral zero n acc h d = absurd (omega arith)
decimal_onto-IsNumeral (suc fuel) n acc h d = elim (Bool-cases (ltb n 10)) [
  | inl small ↦ rw small (ground (arith, d))
  | inr large ↦
      rw large (
        decimal_onto-IsNumeral fuel (n / 10) ((48 + n % 10) ∷ acc) (ground arith) (ground arith, d))
]

pub decimal-IsNumeral : (n : ℕ) → IsNumeral (decimal n)
decimal-IsNumeral n = decimal_onto-IsNumeral (n + 1) n [] (ground arith) tt

digits-decimal_onto :
    (fuel n : ℕ) (acc : List ℕ) → n < fuel → digits 0 (decimal_onto fuel n acc) ≡ digits n acc
unfolding decimal_onto digits
digits-decimal_onto zero n acc h = absurd (omega arith)
digits-decimal_onto (suc fuel) n acc h = elim (Bool-cases (ltb n 10)) [
  | inl small ↦ rw small (ground arith)
  | inr large ↦
      rw large
        (digits-decimal_onto fuel (n / 10) ((48 + n % 10) ∷ acc) (ground arith) ∙ (ground arith))
]

digits-decimal : (n : ℕ) → digits 0 (decimal n) ≡ n
unfolding digits
digits-decimal n = digits-decimal_onto (n + 1) n [] (ground arith) ∙ refl

atoi-IsNumeral : (s : List ℕ) → IsNumeral s → atoi s ≡ pos (digits 0 s)
unfolding atoi
atoi-IsNumeral [] h = absurd h
atoi-IsNumeral (c ∷ cs) h = ground (arith, h.0)

scan_int-IsNumeral : (s : List ℕ) → IsNumeral s → scan_int s ≡ some (pos (digits 0 s))
unfolding scan_int
scan_int-IsNumeral [] h = absurd h
scan_int-IsNumeral (c ∷ cs) h = ground (arith, h.0)

pub atoi-decimal : (n : ℕ) → atoi (decimal n) ≡ pos n
atoi-decimal n = atoi-IsNumeral (decimal n) (decimal-IsNumeral n) ∙ ap pos (digits-decimal n)

pub scan_int-decimal : (n : ℕ) → scan_int (decimal n) ≡ some (pos n)
scan_int-decimal n =
    scan_int-IsNumeral (decimal n) (decimal-IsNumeral n) ∙ ap (λ k. some (pos k)) (digits-decimal n)

-- A numeral that ends the text is a token, where the delimiters are no digits.
pub strtok-decimal :
    (is_delim : ℕ → Bool) (n : ℕ)
    → ((c : ℕ) → IsDigit c → is_delim c ≡ false)
    → strtok is_delim (decimal n) ≡ some (decimal n, [])
strtok-decimal is_delim n plain = strtok-IsNumeral (decimal n) (decimal-IsNumeral n)
  where
    Digits-Plain : (s : List ℕ) → All IsDigit s → All (Plain is_delim) s
    Digits-Plain [] h = tt
    Digits-Plain (c ∷ cs) h = (plain c h.0, Digits-Plain cs h.1)

    strtok-IsNumeral : (s : List ℕ) → IsNumeral s → strtok is_delim s ≡ some (s, [])
    strtok-IsNumeral [] h = absurd h
    strtok-IsNumeral (c ∷ cs) h = strtok-end is_delim c cs (plain c h.0, Digits-Plain cs h.1)
