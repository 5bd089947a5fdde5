-- ===== src/Spines/Sequence.antt =====
-- p4/spines-src-5.5/daemon/link.c: the sequence numbers of a link, which wrap around at `PACK_MAX_SEQ`,
-- and the count of what a link loses. The loss rate is a `double`: its two updates, for a packet that is
-- lost and for one that came, are arguments, as is the rate itself. The last number is an `int16`; the
-- wrap of a number from 32768 on, which the reset of a connection would store, is left out.
use cs2520_2021spring.Common.{
  inr, inl, Bool-cases, not, ℕ, zero, suc, ◌+◌, ◌-◌, ◌/◌, ◌%◌, ◌≤◌, ◌<◌, ◌≡◌, ◌≢◌, refl, Bool, true,
  false, ◌&&◌, ◌||◌, ltb, leb, ◌==◌, if◌then◌else◌, Option, none, some, arith,
}
use cs2520_2021spring.Common.Int.{ℤ, pos, negsuc, pos_part, neg_part, sub_ℕ, ltb_ℤ}

abbrev pub pack_max_seq : ℕ
pack_max_seq = 30000

-- How far `seq` lies ahead of `base`; negative for an old packet.
unfoldable pub relative_position : ℕ → ℕ → ℤ
relative_position base seq =
    if leb base seq
    then if ltb (seq - base) (pack_max_seq / 2)
      then pos (seq - base)
      else sub_ℕ seq (base + pack_max_seq)
    else if ltb (pack_max_seq / 2) (base - seq)
    then pos (seq + pack_max_seq - base)
    else sub_ℕ seq base

-- For numbers below 30000 the position is the distance from `base` to `seq` around the circle, from
-- -15000 up to 14999.
pub relative_position_lem :
    (base seq : ℕ)
    → base < pack_max_seq
    → seq < pack_max_seq
    → let r = relative_position base seq in
      ((base + pos_part r) % pack_max_seq ≡ (seq + neg_part r) % pack_max_seq)
      × (pos_part r < 15000)
      × (neg_part r ≤ 15000)
unfolding relative_position
relative_position_lem base seq h k = ground arith

-- The number of the next packet.
unfoldable pub set_loss_seq_no : ℕ → ℕ
set_loss_seq_no s = if leb pack_max_seq (s + 1) then 0 else s + 1

-- The number behind a number below 30000 is below 30000 too, and one ahead of it.
pub set_loss_seq_no_lem :
    (s : ℕ)
    → s < pack_max_seq
    → (set_loss_seq_no s < pack_max_seq) × (relative_position s (set_loss_seq_no s) ≡ pos 1)
unfolding set_loss_seq_no relative_position
set_loss_seq_no_lem s h = ground arith

module _ {ℓ} {Rate : Type ℓ} (lose kept : Rate → Rate) where
  -- `for (i = …; i != seq_no; i = (i+1) % PACK_MAX_SEQ)`; `none` means that the fuel ran out.
  unfoldable pub gap : ℕ → ℕ → ℕ → Rate → Option Rate
  gap zero i seq rate = none
  gap (suc fuel) i seq rate =
      let rest = gap fuel ((i + 1) % pack_max_seq) seq (lose rate) in
      if i == seq then some rate else rest

  pub record LossData : Type ℓ where
    pub recvd_seq : ℕ
    pub loss_rate : Rate

  -- The packet is a repeated or an old one. The tests of the source, which may compare negative numbers,
  -- have their terms moved over.
  unfoldable pub is_reordered : ℕ → ℕ → Bool
  is_reordered head seq =
      leb seq head && ltb (head + head) (pack_max_seq + seq + seq)
      || ltb head seq && ltb (pack_max_seq + head + head) (seq + seq)

  abbrev pub accepted : ℕ → Option Rate → Option LossData
  accepted seq none = none
  accepted seq (some rate) = some (record { recvd_seq = seq; loss_rate = kept rate })

  -- `control` says whether the leg has a control link, `intrusion` whether the packet's link is
  -- intrusion-tolerant. `none` means that the fuel of the gap's loop ran out.
  unfoldable pub check_link_loss : ℕ → Bool → Bool → ℕ → LossData → Option LossData
  check_link_loss fuel control intrusion seq l =
      if not control || seq == 65535 || intrusion
      then some l
      else if l.recvd_seq == pack_max_seq + 1
      then some (record l { recvd_seq = seq })
      else if is_reordered l.recvd_seq seq
      then some l
      else accepted seq (gap fuel ((l.recvd_seq + 1) % pack_max_seq) seq l.loss_rate)

  abbrev pub iterate : ℕ → Rate → Rate
  iterate zero rate = rate
  iterate (suc n) rate = iterate n (lose rate)

  gap-some :
      (k fuel i seq : ℕ) (rate : Rate)
      → k < fuel
      → k < pack_max_seq
      → i < pack_max_seq
      → seq ≡ (i + k) % pack_max_seq
      → gap fuel i seq rate ≡ some (iterate k rate)
  unfolding gap
  gap-some k zero i seq rate lt m h e = absurd (omega arith)
  gap-some zero (suc fuel) i seq rate lt m h e = ground arith
  gap-some (suc k) (suc fuel) i seq rate lt m h e = ground (
    arith,
    gap-some k fuel ((i + 1) % 30000) seq (lose rate) (omega arith) (omega arith) (omega arith)
        (omega arith),
  )

  ahead :
      (head seq : ℕ)
      → head < pack_max_seq
      → seq < pack_max_seq
      → ltb_ℤ (pos 0) (relative_position head seq) ≡ true
      → (is_reordered head seq ≡ false)
        × (seq
            ≡ ((head + 1) % pack_max_seq + (pos_part (relative_position head seq) - 1))
              % pack_max_seq)
        × (pos_part (relative_position head seq) < 15000)
  unfolding is_reordered relative_position
  ahead head seq h k p = ground arith

  behind :
      (head seq : ℕ)
      → head < pack_max_seq
      → seq < pack_max_seq
      → relative_position head seq ≢ negsuc 14999
      → ltb_ℤ (pos 0) (relative_position head seq) ≡ false
      → is_reordered head seq ≡ true
  unfolding is_reordered relative_position
  behind head seq h k half p = ground arith

  not_flag : (a : ℕ) → a < pack_max_seq → (a == 30001) ≡ false
  not_flag a h = ground arith

  not_ping : (a : ℕ) → a < pack_max_seq → (a == 65535) ≡ false
  not_ping a h = ground arith

  -- With numbers below 30000 that are not exactly half the circle apart, on a link that counts losses,
  -- the loop always ends: a packet ahead becomes the last one, with a loss for each number in between,
  -- and any other changes nothing.
  pub check_link_loss_lem :
      (seq : ℕ) (l : LossData)
      → l.recvd_seq < pack_max_seq
      → seq < pack_max_seq
      → relative_position l.recvd_seq seq ≢ negsuc 14999
      → check_link_loss pack_max_seq true false seq l
        ≡ some (
            if ltb_ℤ (pos 0) (relative_position l.recvd_seq seq)
            then record {
              recvd_seq = seq;
              loss_rate =
                  kept (iterate (pos_part (relative_position l.recvd_seq seq) - 1) l.loss_rate);
            }
            else l)
  unfolding check_link_loss
  check_link_loss_lem seq l h k half =
      elim (Bool-cases (ltb_ℤ (pos 0) (relative_position l.recvd_seq seq))) [
        | inl p ↦
            let (new, e, small) = ahead l.recvd_seq seq h k p in
            rw
              (
                not_ping seq k,
                not_flag l.recvd_seq h,
                new,
                p,
                gap-some (pos_part (relative_position l.recvd_seq seq) - 1) 30000
                    ((l.recvd_seq + 1) % 30000) seq l.loss_rate (omega arith) (omega arith)
                    (omega arith) e,
              )
              refl
        | inr p ↦
            rw (not_ping seq k, not_flag l.recvd_seq h, behind l.recvd_seq seq h k half p, p) refl
      ]

  -- From a place below 30000 the loop never reaches a number from 30000 on: no number of rounds is
  -- enough.
  pub gap_diverges :
      (fuel i seq : ℕ) (rate : Rate)
      → i < pack_max_seq
      → pack_max_seq ≤ seq
      → gap fuel i seq rate ≡ none
  unfolding gap
  gap_diverges zero i seq rate h k = refl
  gap_diverges (suc fuel) i seq rate h k =
      ground (arith, gap_diverges fuel ((i + 1) % 30000) seq (lose rate) (omega arith) k)
