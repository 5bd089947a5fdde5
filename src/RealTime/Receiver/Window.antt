-- ===== src/RealTime/Receiver/Window.antt =====
-- p2/source/rt_rcv.c: what the slots of the receiver's window hold, for every window size.
use native.Mathlib.Nat.{mod-lt, add-mod_right}
use cs2520_2021spring.Common.{
  ℕ, ◌+◌, ◌%◌, ◌≤◌, ◌<◌, ◌≡◌, ◌≢◌, arith, length, sum, get_or, set, length-set, sum-set, set-le,
  get_or-set_self, get_or-set_ne, dec_eq, inl, inr, ◌∙◌, sym, ap, ltb, Bool-cases,
}
use cs2520_2021spring.Common.Int.{pos}
use cs2520_2021spring.RealTime.Receiver.{Receiver, slot, held, hand_over}

-- Two numbers of one window that share a slot are the same number.
pub same_slot : (w j k : ℕ) → k ≤ j → j < k + w → j % w ≡ k % w → j ≡ k
same_slot w j k lo hi e = grind arith

pub same_number : (w c j k : ℕ) → c ≤ j → j < c + w → c ≤ k → k < c + w → j % w ≡ k % w → j ≡ k
same_number w c j k a b d e p = elim (Bool-cases (ltb j k)) [
  | inl less ↦ sym (same_slot w k j (ground arith) (omega arith) (sym p))
  | inr more ↦ same_slot w j k (ground arith) (omega arith) p
]

-- Behind `i`, the only number a window further on that shares its slot is `i` plus the size.
not_round : (w i j : ℕ) → j < i + 1 + w → j % w ≢ i % w → j < i + w
not_round w i j hi q = elim (dec_eq j (i + w)) [
  | inl p ↦ absurd (q (ap (λ t. t % w) p ∙ add-mod_right i w))
  | inr n ↦ omega arith
]

-- The arrays have the window's size, the count counts, and the slots hold the packets from `first` on.
pub record Slots (first : ℕ) (r : Receiver) : Type 0 where
  pub nonempty : 0 < r.size
  pub buffer_len : length r.buffer ≡ r.size
  pub window_len : length r.window ≡ r.size
  pub counted : r.buffersize ≡ sum r.buffer
  pub bits : (i : ℕ) → get_or r.buffer i 0 ≤ 1
  pub holds : (j : ℕ) → first ≤ j → j < first + r.size → slot r j ≡ 1 → (held r j).seq ≡ pos j

-- The invariant between two rounds: the slots hold packets behind `C_ack`.
abbrev pub Inv : Receiver → Type 0
Inv r = Slots (r.c_ack + 1) r

-- The search stands at `i`: the packets between `C_ack` and `i` are missing.
pub record Scan (i : ℕ) (r : Receiver) : Type 0 where
  pub slots : Slots i r
  pub skipped : (k : ℕ) → r.c_ack < k → k < i → slot r k ≡ 0
  pub ahead : r.c_ack < i

pub slot_in_range :
    {first : ℕ} (i : ℕ) (r : Receiver) → Slots first r → i % r.size < length r.buffer
slot_in_range i r s = omega (arith, mod-lt i s.nonempty, s.buffer_len)

one_not_zero : (a : ℕ) → a ≡ 1 → a ≡ 0 → ⊥
one_not_zero a p q = omega arith

pub Inv-Scan : (r : Receiver) → Inv r → Scan (r.c_ack + 1) r
Inv-Scan r v = record { slots = v; skipped = λ k lo hi. absurd (omega arith); ahead = omega arith }

pub Scan-Inv : (i : ℕ) (r : Receiver) → Scan i r → Inv r
Scan-Inv i r s = record {
  nonempty = s.slots.nonempty;
  buffer_len = s.slots.buffer_len;
  window_len = s.slots.window_len;
  counted = s.slots.counted;
  bits = s.slots.bits;
  holds = λ j lo hi e. elim (Bool-cases (ltb j i)) [
    | inl before ↦ absurd (one_not_zero (slot r j) e (s.skipped j (omega arith) (ground arith)))
    | inr behind ↦ s.slots.holds j (ground arith) (omega (arith, s.ahead)) e
  ];
}

-- Past a missing packet.
pub Scan-next : (i : ℕ) (r : Receiver) → Scan i r → slot r i ≡ 0 → Scan (i + 1) r
Scan-next i r s free = record {
  slots = record {
    nonempty = s.slots.nonempty;
    buffer_len = s.slots.buffer_len;
    window_len = s.slots.window_len;
    counted = s.slots.counted;
    bits = s.slots.bits;
    holds = λ j lo hi e. elim (dec_eq (j % r.size) (i % r.size)) [
      | inl p ↦ absurd (one_not_zero (slot r j) e (ap (λ t. get_or r.buffer t 0) p ∙ free))
      | inr q ↦ s.slots.holds j (omega arith) (not_round r.size i j hi q) e
    ];
  };
  skipped = λ k lo hi. elim (dec_eq k i) [
    | inl p ↦ ap (λ t. slot r t) p ∙ free
    | inr q ↦ s.skipped k lo (omega arith)
  ];
  ahead = omega (arith, s.ahead);
}

-- Past a packet that is handed over.
pub Scan-hand_over : (i : ℕ) (r : Receiver) → Scan i r → slot r i ≡ 1 → Scan (i + 1) (hand_over i r)
unfolding hand_over
Scan-hand_over i r s one = record {
  slots = record {
    nonempty = s.slots.nonempty;
    buffer_len = length-set r.buffer _ 0 ∙ s.slots.buffer_len;
    window_len = s.slots.window_len;
    counted =
        omega (
          arith,
          sum-set r.buffer (i % r.size) 0 (slot_in_range i r s.slots),
          s.slots.counted,
          one,
        );
    bits = λ k. set-le r.buffer (i % r.size) k 0 1 (omega arith) (s.slots.bits k);
    holds = λ j lo hi e. elim (dec_eq (i % r.size) (j % r.size)) [
      | inl p ↦ absurd (
          one_not_zero _ e (
            ap (λ t. get_or (set r.buffer (i % r.size) 0) t 0) (sym p)
            ∙ get_or-set_self r.buffer (i % r.size) 0 0 (slot_in_range i r s.slots)))
      | inr q ↦
          s.slots.holds j (omega arith) (not_round r.size i j hi (λ p. q (sym p)))
            (sym (get_or-set_ne r.buffer (i % r.size) (j % r.size) 0 0 q) ∙ e)
    ];
  };
  skipped = λ k lo hi. absurd (omega arith);
  ahead = omega arith;
}
