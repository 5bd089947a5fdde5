-- ===== src/FileCopy/Receiver/Invariant.antt =====
-- What holds of the receiver of rcv.c between two rounds: the slots, the counters and the file.
use cs2520_2021spring.Common.{
  ℕ, suc, ◌+◌, ◌-◌, ◌%◌, ◌≤◌, ◌<◌, ◌≡◌, sym, ◌∙◌, ap, ◌==◌, Bool-cases, inl, inr, List, subst,
  get_or, arith, length-set, get_or-set_ne, sum-set, get_or-le-sum, set-le, ==_iff, ◌&&◌,
}
use native.Mathlib.Numerals.{add-one}
use cs2520_2021spring.Common.Int.{pos, pos_part, leb_ℤ, ◌==ℤ◌, ◌≤ℤ◌, ==ℤ→eq}
use native.Mathlib.Numerals.{add-one}
use cs2520_2021spring.Timeval.{zero_time}
use cs2520_2021spring.Common.Bytes.{cstr}
use cs2520_2021spring.FileCopy.Message.{window_size}
use cs2520_2021spring.FileCopy.Receiver.{
  Receiver, drain, deliver_alone, deliver_and_drain, buffer_early, request_missing, on_data,
}
use cs2520_2021spring.FileCopy.Receiver.{
  may_request, store_early, acknowledge, write_current, account,
}
use cs2520_2021spring.FileCopy.Receiver.Slots.{
  Slots, Inv, Written-next, set-held, drain-Inv, advance,
}

same_number :
    (seq j c : ℕ)
    → c + 2 ≤ seq
    → seq ≤ c + 100
    → c + 1 ≤ j
    → j < c + 1 + 100
    → seq % 100 ≡ j % 100
    → seq ≡ j
same_number seq j c a b d e p = omega arith

module _ (Text : ℕ → List ℕ → Type 0) where
  acknowledge-Inv : (r : Receiver) → Inv Text r → Inv Text (acknowledge r).0
  unfolding acknowledge
  acknowledge-Inv r v = record {
    slots = v.slots;
    expected_free = v.expected_free;
    written = v.written;
    accounted = v.accounted;
  }

  pub deliver_alone-Inv :
      (r : Receiver)
      → Inv Text r
      → Text (r.c_ack + 1) (cstr r.mess.text)
      → r.buffersize ≡ 0
      → Inv Text (deliver_alone r).0
  unfolding deliver_alone
  deliver_alone-Inv r v text empty = record {
    slots = advance Text _ _ _ _ v.slots v.expected_free;
    expected_free =
        omega (arith, get_or-le-sum r.buffer ((r.c_ack + 1 + 1) % 100), v.slots.counted);
    written = Written-next Text r.c_ack r.file (cstr r.mess.text) v.written text;
    accounted = ground (arith, v.accounted);
  }

  pub deliver_and_drain-Inv :
      (r : Receiver)
      → Inv Text r
      → Text (r.c_ack + 1) (cstr r.mess.text)
      → Inv Text (deliver_and_drain r).0
  unfolding deliver_and_drain
  deliver_and_drain-Inv r v text =
      acknowledge-Inv
        (drain 99 (r.c_ack + 2) (record (write_current (account r)) { c_ack = r.c_ack + 1 }))
        (drain-Inv Text 99 (r.c_ack + 2)
          (record (write_current (account r)) { c_ack = r.c_ack + 1 })
          (record {
            next = omega arith;
            slots =
                subst (λ t. Slots Text t r.buffersize r.buffer r.window) (omega arith)
                  (advance Text _ _ _ _ v.slots v.expected_free);
            end_free = subst (λ t. get_or r.buffer t 0 ≡ 0) (omega arith) v.expected_free;
            written = Written-next Text r.c_ack r.file (cstr r.mess.text) v.written text;
            accounted = ground (arith, v.accounted);
          }))

  request_missing-Inv : (seq : ℕ) (r : Receiver) → Inv Text r → Inv Text (request_missing seq r).0
  unfolding request_missing
  request_missing-Inv seq r v = elim (Bool-cases (may_request r)) [
    | inl p ↦ rw p (record {
      slots = v.slots;
      expected_free = v.expected_free;
      written = v.written;
      accounted = v.accounted;
    })
    | inr p ↦ rw p v
  ]

  store_early-Inv :
      (seq : ℕ) (r : Receiver)
      → Inv Text r
      → r.c_ack + 2 ≤ seq
      → seq ≤ r.c_ack + 100
      → Text seq (cstr r.mess.text)
      → get_or r.buffer (seq % 100) 0 ≡ 0
      → Inv Text (store_early seq r)
  unfolding store_early
  store_early-Inv seq r v lo hi text free = record {
    slots = record {
      buffer_len = length-set r.buffer (seq % 100) 1 ∙ v.slots.buffer_len;
      window_len = length-set r.window (seq % 100) _ ∙ v.slots.window_len;
      counted = omega (arith, sum-set r.buffer (seq % 100) 1 (omega arith), v.slots.counted, free);
      bits = λ i. set-le r.buffer (seq % 100) i 1 1 (omega arith) (v.slots.bits i);
      held = λ j lo' hi'.
          set-held (Text j) r.buffer r.window (seq % 100) (j % 100) 1 _ (omega arith) (omega arith)
            (λ _ same.
              subst (λ k. Text k (cstr r.mess.text)) (same_number seq j r.c_ack lo hi lo' hi' same)
                text)
            (λ _. v.slots.held j lo' hi');
    };
    expected_free =
        get_or-set_ne r.buffer (seq % 100) ((r.c_ack + 1) % 100) 1 0 (λ e. omega arith)
        ∙ v.expected_free;
    written = v.written;
    accounted = v.accounted;
  }

  buffer_early-Inv :
      (seq : ℕ) (r : Receiver)
      → Inv Text r
      → r.c_ack + 2 ≤ seq
      → seq ≤ r.c_ack + 100
      → Text seq (cstr r.mess.text)
      → Inv Text (buffer_early seq r).0
  unfolding buffer_early
  buffer_early-Inv seq r v lo hi text = elim (Bool-cases (get_or r.buffer (seq % 100) 0 == 0)) [
    | inl p ↦ rw p (
        request_missing-Inv seq (store_early seq r)
          (store_early-Inv seq r v lo hi text (ground arith)))
    | inr p ↦ rw p v
  ]

  -- What a packet of the current sender has to be: not past the sender's window, and with its text.
  abbrev pub Good : Receiver → Type 0
  Good r =
      (n : ℕ)
      → r.mess.hdr.seq ≡ pos (suc n)
      → (n < r.c_ack + 100) × (Text (suc n) (cstr r.mess.text))

  pub reset_timer-Inv :
      (r : Receiver) → Inv Text r → Inv Text (record r { ack_timeout = zero_time })
  reset_timer-Inv r v = record {
    slots = v.slots;
    expected_free = v.expected_free;
    written = v.written;
    accounted = v.accounted;
  }

  expected_text :
      (r : Receiver)
      → Good r
      → r.mess.hdr.seq ≡ pos (r.c_ack + 1)
      → Text (r.c_ack + 1) (cstr r.mess.text)
  expected_text r good e =
      subst (λ k. Text k (cstr r.mess.text)) (sym (add-one r.c_ack))
        ((good r.c_ack (e ∙ ap pos (add-one r.c_ack))).1)

  early_text :
      (r : Receiver)
      → Good r
      → pos (r.c_ack + 2) ≤ℤ r.mess.hdr.seq
      → (pos_part r.mess.hdr.seq ≤ r.c_ack + 100)
        × (Text (pos_part r.mess.hdr.seq) (cstr r.mess.text))
  early_text r good lo =
      let e : r.mess.hdr.seq ≡ pos (suc (pos_part r.mess.hdr.seq - 1)) = ground arith in
      let n : pos_part r.mess.hdr.seq ≡ suc (pos_part r.mess.hdr.seq - 1) = ap pos_part e in
      let g = good (pos_part r.mess.hdr.seq - 1) e in
      (omega (arith, g.0), subst (λ k. Text k (cstr r.mess.text)) (sym n) g.1)

  pub on_data-Inv : (r : Receiver) → Inv Text r → Good r → Inv Text (on_data r).0
  unfolding on_data
  on_data-Inv r v good = elim (Bool-cases (r.mess.hdr.seq ==ℤ pos (r.c_ack + 1))) [
    | inl p ↦
        let text = expected_text r good (==ℤ→eq _ _ p) in
        elim (Bool-cases (r.buffersize == 0)) [
          | inl z ↦ rw (p, z) (deliver_alone-Inv _ (reset_timer-Inv r v) text ((==_iff _ _).0 z))
          | inr z ↦ rw (p, z) (deliver_and_drain-Inv _ (reset_timer-Inv r v) text)
        ]
    | inr p ↦
        elim (Bool-cases (
          leb_ℤ (pos (r.c_ack + 2)) r.mess.hdr.seq
          && leb_ℤ r.mess.hdr.seq (pos (r.c_ack + 1 + window_size)))) [
            | inl q ↦
                let lo : pos (r.c_ack + 2) ≤ℤ r.mess.hdr.seq = ground arith in
                let g = early_text r good lo in
                rw (p, q) (buffer_early-Inv _ _ (reset_timer-Inv r v) (omega arith) g.0 g.1)
            | inr q ↦ rw (p, q) (reset_timer-Inv r v)
          ]
  ]
