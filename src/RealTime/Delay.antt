-- ===== src/RealTime/Delay.antt =====
-- The one-way delay and its extremes, as p2/source/udp_stream_rcv.c and p2/source/rt_rcv.c compute them.
use cs2520_2021spring.Common.{
  if-ind, ◌≡◌, refl, sym, ap, subst, Bool, true, false, ◌||◌, Bool-cases, inl, inr, if◌then◌else◌,
  List, [], ◌∷◌, ◌++◌, All, All-mono,
}
use cs2520_2021spring.Common.Int.{pos, ◌-ℤ◌}
use cs2520_2021spring.Common.Double.{Double, IsOrdered}
use cs2520_2021spring.Timeval.{Timeval}

module _ {ℓ} {W : Type ℓ} ⦃d : Double W⦄ where
  -- In milliseconds, from two clocks that may differ.
  unfoldable pub oneway : Timeval → Timeval → W
  oneway now sent =
      d.add (d.mul (d.of_int (now.sec -ℤ sent.sec)) (d.of_int (pos 1000)))
        (d.div (d.of_int (now.usec -ℤ sent.usec)) (d.of_int (pos 1000)))

  -- `if (oneway > max_oneway || first) max_oneway = oneway`, and the same for the least.
  unfoldable pub larger : Bool → W → W → W
  larger first x m = if d.lt m x || first then x else m

  unfoldable pub smaller : Bool → W → W → W
  smaller first x m = if d.lt x m || first then x else m

  -- The value is one of the delays, and none is greater.
  abbrev pub IsOneOf : W → List W → Type ℓ
  IsOneOf m xs = (before : List W) × (after : List W) × (xs ≡ before ++ m ∷ after)

  abbrev pub IsGreatest : W → List W → Type ℓ
  IsGreatest m xs = All (λ x. d.lt m x ≡ false) xs × IsOneOf m xs

  abbrev pub IsLeast : W → List W → Type ℓ
  IsLeast m xs = All (λ x. d.lt x m ≡ false) xs × IsOneOf m xs

  pub larger-first : (x m : W) → larger true x m ≡ x
  unfolding larger
  larger-first x m = elim (Bool-cases (d.lt m x)) [ inl p ↦ rw p refl | inr q ↦ rw q refl ]

  pub smaller-first : (x m : W) → smaller true x m ≡ x
  unfolding smaller
  smaller-first x m = elim (Bool-cases (d.lt x m)) [ inl p ↦ rw p refl | inr q ↦ rw q refl ]

  pub larger-cases : (first : Bool) (x m : W) (P : W → Type 0) → P x → P m → P (larger first x m)
  unfolding larger
  larger-cases first x m P hx hm = if-ind P (d.lt m x || first) x m (λ _. hx) (λ _. hm)

  pub smaller-cases : (first : Bool) (x m : W) (P : W → Type 0) → P x → P m → P (smaller first x m)
  unfolding smaller
  smaller-cases first x m P hx hm = if-ind P (d.lt x m || first) x m (λ _. hx) (λ _. hm)

  larger-taken : (x m : W) → d.lt m x ≡ true → larger false x m ≡ x
  unfolding larger
  larger-taken x m p = rw p refl

  larger-kept : (x m : W) → d.lt m x ≡ false → larger false x m ≡ m
  unfolding larger
  larger-kept x m p = rw p refl

  smaller-taken : (x m : W) → d.lt x m ≡ true → smaller false x m ≡ x
  unfolding smaller
  smaller-taken x m p = rw p refl

  smaller-kept : (x m : W) → d.lt x m ≡ false → smaller false x m ≡ m
  unfolding smaller
  smaller-kept x m p = rw p refl

  IsOneOf-more : (m x : W) (xs : List W) → IsOneOf m xs → IsOneOf m (x ∷ xs)
  IsOneOf-more m x xs (before, after, e) = (x ∷ before, after, ap (λ t. x ∷ t) e)

  module _ {IsNumber : W → Type 0} (o : IsOrdered W IsNumber) where
    -- The delays are listed with the last one first.
    pub larger-IsGreatest :
        (x m : W) (xs : List W)
        → IsNumber m
        → IsGreatest m xs
        → IsGreatest (larger false x m) (x ∷ xs)
    larger-IsGreatest x m xs number (top, one) = elim (Bool-cases (d.lt m x)) [
      | inl p ↦
          subst (λ t. IsGreatest t (x ∷ xs)) (sym (larger-taken x m p))
            (
              (
                o.lt_irrefl x,
                All-mono (λ y. d.lt m y ≡ false) (λ y. d.lt x y ≡ false) xs
                    (λ y h. o.le_trans y m x number h (o.lt_asym m x p)) top,
              ),
              ([], xs, refl),
            )
      | inr q ↦
          subst (λ t. IsGreatest t (x ∷ xs)) (sym (larger-kept x m q))
            ((q, top), IsOneOf-more m x xs one)
    ]

    pub smaller-IsLeast :
        (x m : W) (xs : List W) → IsNumber m → IsLeast m xs → IsLeast (smaller false x m) (x ∷ xs)
    smaller-IsLeast x m xs number (low, one) = elim (Bool-cases (d.lt x m)) [
      | inl p ↦
          subst (λ t. IsLeast t (x ∷ xs)) (sym (smaller-taken x m p))
            (
              (
                o.lt_irrefl x,
                All-mono (λ y. d.lt y m ≡ false) (λ y. d.lt y x ≡ false) xs
                    (λ y h. o.le_trans x m y number (o.lt_asym x m p) h) low,
              ),
              ([], xs, refl),
            )
      | inr q ↦
          subst (λ t. IsLeast t (x ∷ xs)) (sym (smaller-kept x m q))
            ((q, low), IsOneOf-more m x xs one)
    ]
