-- ===== src/RealTime/Receiver/Nacks.antt =====
-- p2/source/rt_rcv.c: the requests in an acknowledgement, against the list of what is missing.
use native.Mathlib.Numerals.{add-one}
use cs2520_2021spring.Common.{
  ℕ, zero, suc, ◌+◌, ◌-◌, ◌≤◌, ◌≡◌, refl, sym, ◌∙◌, ap, arith, ltb, ◌==◌, if◌then◌else◌, Bool-cases,
  inl, inr, List, [], ◌∷◌, set, replicate, length, length-set, length-replicate,
}
use cs2520_2021spring.Common.Int.{ℤ, pos, negsuc}
use cs2520_2021spring.RealTime.Packet.{nack_size}
use cs2520_2021spring.RealTime.Receiver.{Receiver, slot, find_nacks, nacks_before}

-- The numbers from `i` on, `n` of them, whose slots are free.
abbrev pub missing : ℕ → ℕ → Receiver → List ℤ
missing zero i r = []
missing (suc n) i r = let rest = missing n (i + 1) r in if slot r i == 0 then pos i ∷ rest else rest

-- Cut at the length, or filled up with -1.
abbrev pub pad : ℕ → List ℤ → List ℤ
pad zero xs = []
pad (suc n) [] = negsuc 0 ∷ pad n []
pad (suc n) (x ∷ xs) = x ∷ pad n xs

-- Written one after the other from the place `j` on.
put : ℕ → List ℤ → List ℤ → List ℤ
put j [] nack = nack
put j (x ∷ xs) nack = put (suc j) xs (set nack j x)

set_beyond : (nack : List ℤ) (j : ℕ) (x : ℤ) → length nack ≤ j → set nack j x ≡ nack
set_beyond [] j x h = refl
set_beyond (n ∷ nack) zero x h = absurd (omega arith)
set_beyond (n ∷ nack) (suc j) x h = ap (λ t. n ∷ t) (set_beyond nack j x (omega arith))

put_beyond : (j : ℕ) (xs nack : List ℤ) → length nack ≤ j → put j xs nack ≡ nack
unfolding put
put_beyond j [] nack h = refl
put_beyond j (x ∷ xs) nack h = rw (set_beyond nack j x h) (put_beyond (suc j) xs nack (omega arith))

put-cons :
    (j : ℕ) (xs : List ℤ) (n : ℤ) (nack : List ℤ) → put (suc j) xs (n ∷ nack) ≡ n ∷ put j xs nack
unfolding put
put-cons j [] n nack = refl
put-cons j (x ∷ xs) n nack = put-cons (suc j) xs n (set nack j x)

put-pad : (m : ℕ) (xs : List ℤ) → put 0 xs (replicate m (negsuc 0)) ≡ pad m xs
unfolding put
put-pad zero xs = put_beyond 0 xs [] (omega arith)
put-pad (suc m) [] = ap (λ t. negsuc 0 ∷ t) (put-pad m [])
put-pad (suc m) (x ∷ xs) = put-cons 0 xs x (replicate m (negsuc 0)) ∙ ap (λ t. x ∷ t) (put-pad m xs)

find_nacks-put :
    (n i j : ℕ) (r : Receiver) (nack : List ℤ)
    → length nack ≡ 10
    → find_nacks n i j r nack ≡ put j (missing n i r) nack
unfolding find_nacks put
find_nacks-put zero i j r nack h = refl
find_nacks-put (suc n) i j r nack h = elim (Bool-cases (ltb j 10)) [
  | inl room ↦ elim (Bool-cases (slot r i == 0)) [
    | inl free ↦
        rw (room, free, add-one j)
          (find_nacks-put n (i + 1) (suc j) r (set nack j (pos i)) (length-set nack j (pos i) ∙ h))
    | inr taken ↦ rw (room, taken) (find_nacks-put n (i + 1) j r nack h)
  ]
  | inr full ↦ rw full (sym (put_beyond j (missing (suc n) i r) nack (ground arith)))
]

-- An acknowledgement of the packet `seq` asks for the first ten packets that are missing between `C_ack`
-- and `seq`, in order, and for no other; the places left over hold -1.
pub nacks_before_lem :
    (seq : ℕ) (r : Receiver)
    → nacks_before seq r ≡ pad nack_size (missing (seq - (r.c_ack + 1)) (r.c_ack + 1) r)
unfolding nacks_before
nacks_before_lem seq r =
    find_nacks-put (seq - (r.c_ack + 1)) (r.c_ack + 1) 0 r (replicate 10 (negsuc 0))
      (length-replicate {A = ℤ} 10 (negsuc 0))
    ∙ put-pad 10 _
