-- ===== src/FileCopy/Receiver/Slots.antt =====
-- p1/source/rcv.c: what the slots of the receiver's window hold, and what the search over them does.
use cs2520_2021spring.Common.{
  ℕ, zero, suc, ◌+◌, ◌*◌, ◌%◌, ◌≤◌, ◌<◌, ◌≡◌, ◌≢◌, refl, sym, ◌∙◌, ap, ltb, ◌==◌, Bool-cases, inl,
  inr, List, [], ◌++◌, subst, length, get_or, set, arith, length-set, get_or-set_self,
  get_or-set_ne, sum, sum-set, get_or-le-sum, set-le, dec_eq,
}
use native.Mathlib.Numerals.{add-one}
use cs2520_2021spring.Common.Bytes.{cstr}
use cs2520_2021spring.FileCopy.Message.{Message, tmb, chunk_len}
use cs2520_2021spring.FileCopy.Receiver.{Receiver, blank, take_buffered, drain}

-- The file is made of one text for each of the packets 1 up to `n`, in order, each a text that its
-- packet may have.
abbrev pub Written : (ℕ → List ℕ → Type 0) → ℕ → List ℕ → Type 0
Written Text zero file = file ≡ []
Written Text (suc n) file =
    (before : List ℕ) × (text : List ℕ) × (file ≡ before ++ text)
    × Written Text n before
    × Text (suc n) text

-- The slots of the window hold packets from `first` on, a hundred of them at most.
pub record Slots (Text : ℕ → List ℕ → Type 0) (first size : ℕ) (buffer : List ℕ)
    (window : List Message) : Type 0 where
  pub buffer_len : length buffer ≡ 100
  pub window_len : length window ≡ 100
  pub counted : size ≡ sum buffer
  pub bits : (i : ℕ) → get_or buffer i 0 ≤ 1
  pub held :
      (j : ℕ)
      → first ≤ j
      → j < first + 100
      → get_or buffer (j % 100) 0 ≡ 1
      → Text j (cstr (get_or window (j % 100) blank).text)

pub record Inv (Text : ℕ → List ℕ → Type 0) (r : Receiver) : Type 0 where
  pub slots : Slots Text (r.c_ack + 1) r.buffersize r.buffer r.window
  pub expected_free : get_or r.buffer ((r.c_ack + 1) % 100) 0 ≡ 0
  pub written : Written Text r.c_ack r.file
  pub accounted : r.totalbytes + tmb * r.i_tmb ≡ chunk_len * r.c_ack

pub Written-next :
    (Text : ℕ → List ℕ → Type 0) (n : ℕ) (file text : List ℕ)
    → Written Text n file
    → Text (n + 1) text
    → Written Text (n + 1) (file ++ text)
Written-next Text n file text w h =
    subst (λ k. Written Text k (file ++ text)) (sym (add-one n))
      (file, text, refl, w, subst (λ k. Text k text) (add-one n) h)

same_slot : (j k : ℕ) → j ≡ k + 100 → j % 100 ≡ k % 100
same_slot j k p = omega arith

pub one_not_zero : ¬ (◌≡◌ {A = ℕ} 1 0)
one_not_zero e = omega arith

-- Writing one slot leaves what the other slots hold; the written one holds what the write says.
pub set-held :
    (P : List ℕ → Type 0) (buffer : List ℕ) (window : List Message) (a b v : ℕ) (m : Message)
    → a < length buffer
    → a < length window
    → (v ≡ 1 → a ≡ b → P (cstr m.text))
    → (a ≢ b → get_or buffer b 0 ≡ 1 → P (cstr (get_or window b blank).text))
    → get_or (set buffer a v) b 0 ≡ 1
    → P (cstr (get_or (set window a m) b blank).text)
set-held P buffer window a b v m hb hw same other e = elim (dec_eq a b) [
  | inl p ↦
      let at_a : get_or (set buffer a v) a 0 ≡ 1 =
        subst (λ t. get_or (set buffer a v) t 0 ≡ 1) (sym p) e in
      rw (← p, get_or-set_self window a m blank hw)
        (same (sym (get_or-set_self buffer a v 0 hb) ∙ at_a) p)
  | inr q ↦
      rw (get_or-set_ne window a b m blank q) (other q (sym (get_or-set_ne buffer a b v 0 q) ∙ e))
]

module _ (Text : ℕ → List ℕ → Type 0) where
  -- Taking the packet `j` out of its slot moves the window on by one.
  take_buffered-Slots :
      (j : ℕ) (r : Receiver)
      → Slots Text j r.buffersize r.buffer r.window
      → get_or r.buffer (j % 100) 0 ≡ 1
      → let t = take_buffered j r in Slots Text (j + 1) t.buffersize t.buffer t.window
  unfolding take_buffered
  take_buffered-Slots j r s one = record {
    buffer_len = length-set r.buffer (j % 100) 0 ∙ s.buffer_len;
    window_len = length-set r.window (j % 100) _ ∙ s.window_len;
    counted = omega (arith, sum-set r.buffer (j % 100) 0 (omega arith), s.counted, one);
    bits = λ i. set-le r.buffer (j % 100) i 0 1 (omega arith) (s.bits i);
    held = λ i lo hi.
        set-held (Text i) r.buffer r.window (j % 100) (i % 100) 0 _ (omega arith) (omega arith)
          (λ e _. absurd (omega arith)) (λ q. s.held i (omega arith) (omega arith));
  }

  -- What holds each time that the search tests its condition: `j` is the next packet, and the slot
  -- `f` where the search has to end is free.
  pub record Searching (f j : ℕ) (r : Receiver) : Type 0 where
    pub next : r.c_ack + 1 ≡ j
    pub slots : Slots Text j r.buffersize r.buffer r.window
    pub end_free : get_or r.buffer f 0 ≡ 0
    pub written : Written Text r.c_ack r.file
    pub accounted : r.totalbytes + tmb * r.i_tmb ≡ chunk_len * r.c_ack

  take_buffered-Searching :
      (f j : ℕ) (r : Receiver)
      → Searching f j r
      → get_or r.buffer (j % 100) 0 ≡ 1
      → Searching f (j + 1) (take_buffered j r)
  unfolding take_buffered
  take_buffered-Searching f j r s one = record {
    next = ap (λ k. k + 1) s.next;
    slots = take_buffered-Slots j r s.slots one;
    end_free =
        omega (arith, set-le r.buffer (j % 100) f 0 0 (omega arith) (omega (arith, s.end_free)));
    written =
        Written-next Text r.c_ack r.file (cstr (get_or r.window (j % 100) blank).text) s.written (
          subst (λ k. Text k (cstr (get_or r.window (j % 100) blank).text)) (sym s.next)
            (s.slots.held j (omega arith) (omega arith) one));
    accounted = ground (arith, s.accounted);
  }

  stop : (f j : ℕ) (r : Receiver) → Searching f j r → get_or r.buffer (j % 100) 0 ≡ 0 → Inv Text r
  stop f j r s free = record {
    slots = rw s.next s.slots;
    expected_free = rw s.next free;
    written = s.written;
    accounted = s.accounted;
  }

  -- The search ends with the packet after `C_ack` missing, whatever ends it.
  pub drain-Inv : (n j : ℕ) (r : Receiver) → Searching ((j + n) % 100) j r → Inv Text (drain n j r)
  unfolding drain
  drain-Inv zero j r s =
      stop _ j r s (subst (λ t. get_or r.buffer (t % 100) 0 ≡ 0) (omega arith) s.end_free)
  drain-Inv (suc n) j r s = elim (Bool-cases (ltb 0 r.buffersize)) [
    | inl some_left ↦ elim (Bool-cases (get_or r.buffer (j % 100) 0 == 1)) [
      | inl here ↦
          rw (some_left, here)
            (drain-Inv n (j + 1) (take_buffered j r) (
              take_buffered-Searching _ j r (subst (λ t. Searching (t % 100) j r) (omega arith) s)
                (ground arith)))
      | inr gap ↦ rw (some_left, gap) (stop _ j r s (ground (arith, s.slots.bits (j % 100))))
    ]
    | inr none_left ↦
        rw none_left
          (stop _ j r s (ground (arith, get_or-le-sum r.buffer (j % 100), s.slots.counted)))
  ]

  -- With the expected packet's slot free, the slots may be read as holding the packets behind it.
  pub advance :
      (k size : ℕ) (buffer : List ℕ) (window : List Message)
      → Slots Text k size buffer window
      → get_or buffer (k % 100) 0 ≡ 0
      → Slots Text (k + 1) size buffer window
  advance k size buffer window s free = record {
    buffer_len = s.buffer_len;
    window_len = s.window_len;
    counted = s.counted;
    bits = s.bits;
    held = λ j lo hi e. elim (dec_eq j (k + 100)) [
      | inl p ↦ absurd (one_not_zero (sym e ∙ ap (λ t. get_or buffer t 0) (same_slot j k p) ∙ free))
      | inr q ↦ s.held j (omega arith) (omega arith) e
    ];
  }
