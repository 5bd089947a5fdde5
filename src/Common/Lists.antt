-- ===== src/Common/Lists.antt =====
-- C arrays as lists measured and indexed by native numbers, under the library's names.
use Prim.Native.Nat.{ℕ, zero, suc, ◌+◌, ◌-◌, ◌≤◌, ◌<◌}
use mathlib.Core.Path.{◌≡◌, refl, ap, ◌∙◌}
use mathlib.Core.Logic.{◌≢◌}
use mathlib.Core.List.{List, [], ◌∷◌, ◌++◌, map}
use native.Mathlib.Omega.{arith}
use native.Mathlib.Nat.{add-zero, suc-add}

module _ {ℓ} {A : Type ℓ} where
  abbrev pub length : List A → ℕ
  length [] = 0
  length (x ∷ xs) = suc (length xs)

  abbrev pub get_or : List A → ℕ → A → A
  get_or [] i d = d
  get_or (x ∷ xs) zero d = x
  get_or (x ∷ xs) (suc i) d = get_or xs i d

  -- A write out of bounds changes nothing.
  abbrev pub set : List A → ℕ → A → List A
  set [] i v = []
  set (x ∷ xs) zero v = v ∷ xs
  set (x ∷ xs) (suc i) v = x ∷ set xs i v

  abbrev pub take : ℕ → List A → List A
  take zero xs = []
  take (suc n) [] = []
  take (suc n) (x ∷ xs) = x ∷ take n xs

  abbrev pub drop : ℕ → List A → List A
  drop zero xs = xs
  drop (suc n) [] = []
  drop (suc n) (x ∷ xs) = drop n xs

  abbrev pub replicate : ℕ → A → List A
  replicate zero a = []
  replicate (suc n) a = a ∷ replicate n a

  pub length-append : (xs ys : List A) → length (xs ++ ys) ≡ length xs + length ys
  length-append [] ys = omega arith
  length-append (x ∷ xs) ys = omega (arith, length-append xs ys)

  pub length-replicate : (n : ℕ) (a : A) → length (replicate n a) ≡ n
  length-replicate zero a = refl
  length-replicate (suc n) a = ap suc (length-replicate n a)

  pub length-set : (xs : List A) (i : ℕ) (v : A) → length (set xs i v) ≡ length xs
  length-set [] i v = refl
  length-set (x ∷ xs) zero v = refl
  length-set (x ∷ xs) (suc i) v = ap suc (length-set xs i v)

  pub get_or-set_self :
      (xs : List A) (i : ℕ) (v d : A) → i < length xs → get_or (set xs i v) i d ≡ v
  get_or-set_self [] i v d h = elim h [ ]
  get_or-set_self (x ∷ xs) zero v d h = refl
  get_or-set_self (x ∷ xs) (suc i) v d h = get_or-set_self xs i v d (omega arith)

  pub get_or-set_ne :
      (xs : List A) (i j : ℕ) (v d : A) → i ≢ j → get_or (set xs i v) j d ≡ get_or xs j d
  get_or-set_ne [] i j v d h = refl
  get_or-set_ne (x ∷ xs) zero zero v d h = absurd (h refl)
  get_or-set_ne (x ∷ xs) zero (suc j) v d h = refl
  get_or-set_ne (x ∷ xs) (suc i) zero v d h = refl
  get_or-set_ne (x ∷ xs) (suc i) (suc j) v d h = get_or-set_ne xs i j v d (λ e. h (ap suc e))

  pub get_or-replicate : (n i : ℕ) (a : A) → get_or (replicate n a) i a ≡ a
  get_or-replicate zero i a = refl
  get_or-replicate (suc n) zero a = refl
  get_or-replicate (suc n) (suc i) a = get_or-replicate n i a

pub sum : List ℕ → ℕ
sum [] = 0
sum (x ∷ xs) = x + sum xs

pub sum-set :
    (xs : List ℕ) (i v : ℕ) → i < length xs → sum (set xs i v) + get_or xs i 0 ≡ sum xs + v
unfolding sum
sum-set [] i v h = elim h [ ]
sum-set (x ∷ xs) zero v h = omega arith
sum-set (x ∷ xs) (suc i) v h = omega (arith, sum-set xs i v (omega arith))

pub sum-replicate : (n : ℕ) → sum (replicate n 0) ≡ 0
unfolding sum
sum-replicate zero = refl
sum-replicate (suc n) = omega (arith, sum-replicate n)

pub get_or-le-sum : (xs : List ℕ) (i : ℕ) → get_or xs i 0 ≤ sum xs
unfolding sum
get_or-le-sum [] i = omega arith
get_or-le-sum (x ∷ xs) zero = omega arith
get_or-le-sum (x ∷ xs) (suc i) = omega (arith, get_or-le-sum xs i)

-- Array entries that never pass a bound.
pub set-le : (xs : List ℕ) (i j v b : ℕ) → v ≤ b → get_or xs j 0 ≤ b → get_or (set xs i v) j 0 ≤ b
set-le [] i j v b h k = k
set-le (x ∷ xs) zero zero v b h k = h
set-le (x ∷ xs) zero (suc j) v b h k = k
set-le (x ∷ xs) (suc i) zero v b h k = k
set-le (x ∷ xs) (suc i) (suc j) v b h k = set-le xs i j v b h k

-- A predicate by recursion computes to tuples, which the tactics read and build.
abbrev pub All {ℓ κ} : {A : Type ℓ} → (A → Type κ) → List A → Type κ
All P [] = Unit
All P (x ∷ xs) = P x × All P xs

pub All-append {ℓ κ} :
    {A : Type ℓ} (P : A → Type κ) (xs ys : List A) → All P xs → All P ys → All P (xs ++ ys)
All-append P [] ys hx hy = hy
All-append P (x ∷ xs) ys hx hy = (hx.0, All-append P xs ys hx.1 hy)

module _ {ℓ} {A : Type ℓ} where
  pub drop-drop : (m n : ℕ) (xs : List A) → drop m (drop n xs) ≡ drop (n + m) xs
  drop-drop m zero xs = ap (λ k. drop k xs) (omega arith)
  drop-drop zero (suc n) [] = rw add-zero refl
  drop-drop (suc m) (suc n) [] = rw suc-add refl
  drop-drop m (suc n) (x ∷ xs) = rw suc-add (drop-drop m n xs)

  pub length-take-le : (n : ℕ) (xs : List A) → length (take n xs) ≤ n
  length-take-le zero xs = omega arith
  length-take-le (suc n) [] = omega arith
  length-take-le (suc n) (x ∷ xs) = omega (arith, length-take-le n xs)

  pub length-take-le_length : (k : ℕ) (xs : List A) → length (take k xs) ≤ length xs
  length-take-le_length zero xs = omega arith
  length-take-le_length (suc k) [] = omega arith
  length-take-le_length (suc k) (x ∷ xs) = omega (arith, length-take-le_length k xs)

  pub length-take : (k : ℕ) (xs : List A) → k ≤ length xs → length (take k xs) ≡ k
  length-take zero xs h = refl
  length-take (suc k) [] h = absurd (omega arith)
  length-take (suc k) (x ∷ xs) h = ap suc (length-take k xs (omega arith))

  pub drop-all : (k : ℕ) (xs : List A) → length xs ≤ k → drop k xs ≡ []
  drop-all zero [] h = refl
  drop-all zero (x ∷ xs) h = absurd (omega arith)
  drop-all (suc k) [] h = refl
  drop-all (suc k) (x ∷ xs) h = drop-all k xs (omega arith)

  pub length-drop : (k : ℕ) (xs : List A) → length (drop k xs) ≡ length xs - k
  length-drop zero xs = omega arith
  length-drop (suc k) [] = omega arith
  length-drop (suc k) (x ∷ xs) = length-drop k xs ∙ omega arith

pub All-map {ℓ κ} :
    {A B : Type ℓ} (P : B → Type κ) (Q : A → Type κ) (f : A → B) (xs : List A)
    → ((x : A) → Q x → P (f x))
    → All Q xs
    → All P (map f xs)
All-map P Q f [] h all = tt
All-map P Q f (x ∷ xs) h all = (h x all.0, All-map P Q f xs h all.1)

pub All-mono {ℓ κ} :
    {A : Type ℓ} (P Q : A → Type κ) (xs : List A) → ((x : A) → P x → Q x) → All P xs → All Q xs
All-mono P Q [] h all = tt
All-mono P Q (x ∷ xs) h all = (h x all.0, All-mono P Q xs h all.1)

pub All-zip {ℓ κ} :
    {A : Type ℓ} (P Q : A → Type κ) (xs : List A) → All P xs → All Q xs → All (λ x. P x × Q x) xs
All-zip P Q [] hp hq = tt
All-zip P Q (x ∷ xs) hp hq = ((hp.0, hq.0), All-zip P Q xs hp.1 hq.1)

pub All-middle {ℓ κ} :
    {A : Type ℓ} (P : A → Type κ) (before after : List A) (x : A)
    → All P (before ++ x ∷ after)
    → P x
All-middle P [] after x all = all.0
All-middle P (b ∷ before) after x all = All-middle P before after x all.1

-- A write keeps what holds of every element and of the new one.
pub get_or-set_keeps {ℓ κ} :
    {A : Type ℓ} (P : A → Type κ) (xs : List A) (i j : ℕ) (v d : A)
    → P v
    → P (get_or xs j d)
    → P (get_or (set xs i v) j d)
get_or-set_keeps P [] i j v d new old = old
get_or-set_keeps P (x ∷ xs) zero zero v d new old = new
get_or-set_keeps P (x ∷ xs) zero (suc j) v d new old = old
get_or-set_keeps P (x ∷ xs) (suc i) zero v d new old = old
get_or-set_keeps P (x ∷ xs) (suc i) (suc j) v d new old = get_or-set_keeps P xs i j v d new old

pub get_or-append_left {ℓ} :
    {A : Type ℓ} (xs ys : List A) (i : ℕ) (d : A)
    → i < length xs
    → get_or (xs ++ ys) i d ≡ get_or xs i d
get_or-append_left [] ys i d h = absurd (omega (arith, h))
get_or-append_left (x ∷ xs) ys zero d h = refl
get_or-append_left (x ∷ xs) ys (suc i) d h = get_or-append_left xs ys i d (omega (arith, h))

pub get_or-append_end {ℓ} :
    {A : Type ℓ} (xs : List A) (y d : A) → get_or (xs ++ y ∷ []) (length xs) d ≡ y
get_or-append_end [] y d = refl
get_or-append_end (x ∷ xs) y d = get_or-append_end xs y d

pub drop-get_or {ℓ} :
    {A : Type ℓ} (i : ℕ) (xs : List A) (d : A)
    → i < length xs
    → drop i xs ≡ get_or xs i d ∷ drop (suc i) xs
drop-get_or i [] d h = absurd (omega (arith, h))
drop-get_or zero (x ∷ xs) d h = refl
drop-get_or (suc i) (x ∷ xs) d h = drop-get_or i xs d (omega (arith, h))

pub length-map {ℓ κ} :
    {A : Type ℓ} {B : Type κ} (f : A → B) (xs : List A) → length (map f xs) ≡ length xs
length-map f [] = refl
length-map f (x ∷ xs) = ap suc (length-map f xs)
