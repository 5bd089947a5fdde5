-- ===== src/FileCopy/Sender/Invariant.antt =====
-- p1/source/ncp.c: what the sender's window holds between two rounds, and what it sends.
use cs2520_2021spring.Common.{
  ℕ, ◌+◌, ◌-◌, ◌*◌, ◌%◌, ◌≤◌, ◌<◌, ◌≡◌, ◌≢◌, ◌∙◌, ap, subst, inl, inr, List, length, get_or, set,
  take, drop, arith, length-set, get_or-set_self, get_or-set_ne, dec_eq, drop-drop, length-take-le,
}
use cs2520_2021spring.Common.Int.{pos, negsuc}
use cs2520_2021spring.Common.Bytes.{cstr, cstr-overwrite_nul, cstr-cstr, length-overwrite}
use cs2520_2021spring.FileCopy.Message.{Message, chunk_len}
use cs2520_2021spring.FileCopy.Sender.{
  Sender, Out, lossy, direct, blank, read_chunk, stamp, keep, send_next,
}

-- The block of the file that the packet `n` carries, from the packet 1 on.
abbrev pub block : List ℕ → ℕ → List ℕ
block content n = take chunk_len (drop (chunk_len * (n - 1)) content)

-- The message carries the number `n`, and the text of the block `n` up to its first NUL.
pub record Carries (content : List ℕ) (n : ℕ) (m : Message) : Type 0 where
  pub number : m.hdr.seq ≡ pos n
  pub body : cstr m.text ≡ cstr (block content n)

-- A window whose packets from `head` up to `tail` are in their slots; `tail` packets are read.
pub record Inv (content : List ℕ) (s : Sender) : Type 0 where
  pub next : s.seq ≡ s.tail + 1
  pub span : s.tail < s.head + 100
  pub rest : s.source ≡ drop (chunk_len * s.tail) content
  pub window_len : length s.window ≡ 100
  pub mess_len : length s.mess.text ≡ 1360
  pub slots :
      (i : ℕ)
      → 0 < i
      → s.head ≤ i
      → i ≤ s.tail
      → Carries content i (get_or s.window (i % 100) blank)

-- A data datagram carries a packet that was read; the last one carries -1.
abbrev pub Truthful : List ℕ → ℕ → Out → Type 0
Truthful content tail (lossy d) =
    (n : ℕ) × (d.hdr.seq ≡ pos n) × (0 < n) × (n ≤ tail) × (cstr d.payload ≡ cstr (block content n))
Truthful content tail (direct d) = d.hdr.seq ≡ negsuc 0

module _ (content : List ℕ) where
  -- Keeping a packet leaves the other slots as they are.
  set-Carries :
      (window : List Message) (m : Message) (k i : ℕ)
      → length window ≡ 100
      → (k % 100 ≡ i % 100 → k ≡ i)
      → Carries content k m
      → (k ≢ i → Carries content i (get_or window (i % 100) blank))
      → Carries content i (get_or (set window (k % 100) m) (i % 100) blank)
  set-Carries window m k i len near here there = elim (dec_eq (k % 100) (i % 100)) [
    | inl p ↦
        rw (← p, get_or-set_self window (k % 100) m blank (omega arith))
          (subst (λ t. Carries content t m) (near p) here)
    | inr q ↦
        rw (get_or-set_ne window (k % 100) (i % 100) m blank q)
          (there (λ e. q (ap (λ t. t % 100) e)))
  ]

  -- What one read, stamped and kept, puts into the slot and on the wire.
  pub read-Carries :
      (k : ℕ) (s : Sender)
      → s.source ≡ drop (chunk_len * k) content
      → s.seq ≡ k + 1
      → length s.mess.text ≡ 1360
      → Carries content (k + 1) (stamp (read_chunk s)).mess
  unfolding stamp read_chunk
  read-Carries k s rest next room = record {
    number = ap pos next;
    body =
        cstr-overwrite_nul s.mess.text (take chunk_len s.source)
          (omega (arith, length-take-le {0} chunk_len s.source, room))
        ∙ ap cstr (rw rest (ap (λ k. take chunk_len (drop (chunk_len * k) content)) (omega arith)));
  }

  pub send_next-Inv : (s : Sender) → Inv content s → Inv content (send_next s).0
  unfolding send_next keep stamp read_chunk
  send_next-Inv s v = record {
    next = ap (λ k. k + 1) v.next;
    span = omega arith;
    rest =
        rw v.rest (
          drop-drop chunk_len (chunk_len * s.tail) content
          ∙ ap (λ k. drop k content) (omega arith));
    window_len = length-set s.window _ _ ∙ v.window_len;
    mess_len = length-overwrite s.mess.text _ ∙ v.mess_len;
    slots = λ i low lo hi.
        set-Carries s.window _ (s.tail + 1) i v.window_len (λ p. omega (arith, v.span))
          (read-Carries s.tail s v.rest v.next v.mess_len)
          (λ q. v.slots i low (omega arith) (omega arith));
  }

  pub send_next-Truthful :
      (s : Sender) → Inv content s → Truthful content (send_next s).0.tail (send_next s).1
  unfolding send_next keep
  send_next-Truthful s v =
      let c = read-Carries s.tail s v.rest v.next v.mess_len in
      (s.tail + 1, c.number, omega arith, omega arith, cstr-cstr _ ∙ c.body)

  -- The state of the first fill before the packet `i`.
  pub record Filling (i : ℕ) (s : Sender) : Type 0 where
    pub next : s.seq ≡ i
    pub rest : s.source ≡ drop (chunk_len * (i - 1)) content
    pub window_len : length s.window ≡ 100
    pub mess_len : length s.mess.text ≡ 1360
    pub slots : (j : ℕ) → 0 < j → j < i → Carries content j (get_or s.window (j % 100) blank)

  pub fill_round :
      (i : ℕ) (s : Sender)
      → 0 < i
      → i ≤ 100
      → Filling i s
      → Filling (i + 1) (keep i (stamp (read_chunk s)))
        × Carries content i (stamp (read_chunk s)).mess
  unfolding keep stamp read_chunk
  fill_round i s low hi v =
      let c : Carries content i (stamp (read_chunk s)).mess =
        subst (λ t. Carries content t (stamp (read_chunk s)).mess) (omega arith)
          (read-Carries (i - 1) s v.rest (omega (arith, v.next)) v.mess_len) in
      (
        record {
          next = ap (λ k. k + 1) v.next;
          rest = rw v.rest (
              drop-drop chunk_len (chunk_len * (i - 1)) content
              ∙ ap (λ k. drop k content) (omega arith));
          window_len = length-set s.window _ _ ∙ v.window_len;
          mess_len = length-overwrite s.mess.text _ ∙ v.mess_len;
          slots = λ j pos_j hi_j.
              set-Carries s.window _ i j v.window_len (λ p. omega arith) c
                (λ q. v.slots j pos_j (omega arith));
        },
        c,
      )
