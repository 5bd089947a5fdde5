-- ===== src/FileCopy/Sender/Rounds.antt =====
-- p1/source/ncp.c: every round of the sender's loop keeps its window right, and every datagram that it
-- sends carries the block of the file that its number says.
use cs2520_2021spring.Common.{
  if-ind, ℕ, zero, suc, ◌+◌, ◌-◌, ◌*◌, ◌≤◌, ◌<◌, ◌≡◌, refl, sym, ◌∙◌, ap, subst, leb, ◌==◌,
  Bool-cases, inl, inr, List, [], ◌∷◌, length, drop, All, arith, Option, none, some, ◌&&◌,
}
use cs2520_2021spring.Common.Int.{ℤ, pos, negsuc, pos_part, leb_ℤ, ltb_ℤ, ◌==ℤ◌, sub_ℕ}
use cs2520_2021spring.Common.Bytes.{cstr-cstr, length-overwrite}
use cs2520_2021spring.FileCopy.Message.{Message, Datagram, chunk_len}
use cs2520_2021spring.FileCopy.Sender.{
  Sender, Out, lossy, direct, whole_datagram, read_chunk, stamp, keep, Result, fill_window, init,
  start, send_next, shift, slide, finish, resend_nacks, resend_window, arrive, on_response,
  on_timeout, round, is_done,
}
use cs2520_2021spring.FileCopy.Sender.Invariant.{
  Carries, Inv, Truthful, send_next-Inv, send_next-Truthful, Filling, fill_round,
}

module _ (content : List ℕ) where
  Truthful-mono : (a b : ℕ) → a ≤ b → (o : Out) → Truthful content a o → Truthful content b o
  Truthful-mono a b h (lossy d) (n, e, low, le, t) = (n, e, low, omega arith, t)
  Truthful-mono a b h (direct d) e = e

  Carries-Truthful :
      (n tail : ℕ) (m : Message)
      → 0 < n
      → n ≤ tail
      → Carries content n m
      → Truthful content tail (lossy (whole_datagram m))
  Carries-Truthful n tail m low h c = (n, c.number, low, h, c.body)

  raise_head-Inv :
      (h : ℕ) (s : Sender) → Inv content s → s.head ≤ h → Inv content (record s { head = h })
  raise_head-Inv h s v le = record {
    next = v.next;
    span = omega (arith, v.span);
    rest = v.rest;
    window_len = v.window_len;
    mess_len = v.mess_len;
    slots = λ i low lo hi. v.slots i low (omega arith) hi;
  }

  arrive-Inv : (d : Datagram) (s : Sender) → Inv content s → Inv content (arrive d s)
  arrive-Inv d s v = record {
    next = v.next;
    span = v.span;
    rest = v.rest;
    window_len = v.window_len;
    mess_len = length-overwrite s.mess.text d.payload ∙ v.mess_len;
    slots = v.slots;
  }

  send_next-frame :
      (s : Sender) → ((send_next s).0.head ≡ s.head + 1) × ((send_next s).0.tail ≡ s.tail + 1)
  unfolding send_next
  send_next-frame s = (refl, refl)

  -- What a handler has to guarantee.
  abbrev Correct : Sender × List Out → Type 0
  Correct (s, out) = Inv content s × All (Truthful content s.tail) out

  tail-shift : (n ack : ℕ) (s : Sender) → s.tail ≤ (shift n ack s).0.tail
  unfolding shift
  tail-shift zero ack s = omega arith
  tail-shift (suc n) ack s = ground (arith, send_next-frame s, tail-shift n ack (send_next s).0)

  shift-Correct :
      (n ack : ℕ) (s : Sender) → Inv content s → s.head + n ≡ ack + 1 → Correct (shift n ack s)
  unfolding shift
  shift-Correct zero ack s v e = (v, tt)
  shift-Correct (suc n) ack s v e =
      let t = (send_next s).0 in
      let w = send_next-Inv content s v in
      let o = send_next-Truthful content s v in
      let f = send_next-frame s in
      if-ind Correct t.eof _ _ (λ over. (raise_head-Inv (ack + 1) t w (omega (arith, f)), (o, tt)))
        (λ more.
          let ih = shift-Correct n ack t w (omega (arith, f)) in
          (ih.0, (Truthful-mono t.tail _ (tail-shift n ack t) _ o, ih.1)))

  slide-Correct : (ack : ℕ) (s : Sender) → Inv content s → s.head ≤ ack → Correct (slide ack s)
  unfolding slide
  slide-Correct ack s v h =
      if-ind Correct s.eof _ _ (λ over. (raise_head-Inv (ack + 1) s v (omega arith), tt))
        (λ more. shift-Correct _ ack s v (omega arith))

  resend_nacks-Truthful :
      (ns : List ℤ) (s : Sender)
      → Inv content s
      → 0 < s.head
      → All (Truthful content s.tail) (resend_nacks ns s)
  unfolding resend_nacks
  resend_nacks-Truthful [] s v h = tt
  resend_nacks-Truthful (negsuc k ∷ ns) s v h = tt
  resend_nacks-Truthful (pos n ∷ ns) s v h = elim (Bool-cases (leb s.head n && leb n s.tail)) [
    | inl inside ↦
        let lo : s.head ≤ n = ground arith in
        let hi : n ≤ s.tail = ground arith in
        rw inside (
          Carries-Truthful n s.tail _ (omega arith) hi (v.slots n (omega arith) lo hi),
          resend_nacks-Truthful ns s v h,
        )
    | inr outside ↦ rw outside (resend_nacks-Truthful ns s v h)
  ]

  resend_window-Truthful :
      (n i : ℕ) (s : Sender)
      → Inv content s
      → 0 < i
      → s.head ≤ i
      → n ≤ s.tail + 1 - i
      → All (Truthful content s.tail) (resend_window n i s)
  unfolding resend_window
  resend_window-Truthful zero i s v low lo hi = tt
  resend_window-Truthful (suc n) i s v low lo hi = (
    Carries-Truthful i s.tail _ low (omega arith) (v.slots i low lo (omega arith)),
    resend_window-Truthful n (i + 1) s v (omega arith) (omega arith) (omega arith),
  )

  keep_frame :
      (i : ℕ) (s : Sender)
      → ((keep i (stamp (read_chunk s))).head ≡ s.head)
        × ((keep i (stamp (read_chunk s))).tail ≡ s.tail)
  unfolding keep stamp read_chunk
  keep_frame i s = (refl, refl)

  -- The first window goes out whole, and fills the slots of the packets 1 to 100.
  fill_window-Filling :
      (n i : ℕ) (s : Sender)
      → 0 < i
      → i + n ≤ 101
      → Filling content i s
      → Filling content (i + n) (fill_window n i s).0
        × ((fill_window n i s).0.head ≡ s.head)
        × ((fill_window n i s).0.tail ≡ s.tail)
        × All (Truthful content 100) (fill_window n i s).1
  unfolding fill_window
  fill_window-Filling zero i s low hi v =
      (subst (λ k. Filling content k s) (omega arith) v, refl, refl, tt)
  fill_window-Filling (suc n) i s low hi v =
      let (w, c) = fill_round content i s low (omega arith) v in
      let ih =
        fill_window-Filling n (i + 1) (keep i (stamp (read_chunk s))) (omega arith) (omega arith)
          w in
      (
        subst (λ k. Filling content k (fill_window n (i + 1) (keep i (stamp (read_chunk s)))).0)
            (omega arith) ih.0,
        ih.1 ∙ (keep_frame i s).0,
        ih.2 ∙ (keep_frame i s).1,
        ((i, c.number, low, omega arith, cstr-cstr _ ∙ c.body), ih.3),
      )

  finish-Correct : (s : Sender) → Inv content s → Correct ((finish s).0, (finish s).1)
  unfolding finish
  finish-Correct s v = (
    record {
      next = v.next;
      span = v.span;
      rest = v.rest;
      window_len = v.window_len;
      mess_len = v.mess_len;
      slots = v.slots;
    },
    (refl, tt),
  )

  abbrev Sound : Result → Type 0
  Sound (s, out, next) = Correct (s, out)

  on_response-Sound :
      (d : Datagram) (s : Sender) → Inv content s → 0 < s.head → Sound (on_response d s)
  unfolding on_response
  on_response-Sound d s v h =
      let t = arrive d s in
      let w = arrive-Inv d s v in
      if-ind Sound (is_done d.hdr.cack t) _ _ (λ _. finish-Correct t w)
        (λ _.
          if-ind Sound (ltb_ℤ d.hdr.cack (sub_ℕ t.head 1)) _ _ (λ _. (w, tt))
            (λ _.
              if-ind Sound (d.hdr.cack ==ℤ sub_ℕ t.head 1) _ _
                (λ _. (w, resend_nacks-Truthful d.hdr.nack t w h))
                (λ _.
                  if-ind Sound (leb_ℤ (pos t.head) d.hdr.cack) _ _
                    (λ le. slide-Correct (pos_part d.hdr.cack) t w (ground arith)) (λ _. (w, tt)))))

  on_timeout-Sound : (s : Sender) → Inv content s → 0 < s.head → Sound (on_timeout s)
  unfolding on_timeout
  on_timeout-Sound s v h =
      if-ind Sound (s.head == s.tail) _ _ (λ _. finish-Correct s v)
        (λ _. (
          v,
          resend_window-Truthful (s.tail + 1 - s.head) s.head s v h (omega arith) (omega arith),
        ))

  -- Whatever `select` answers and the network brings, a round of a sender with a positive `head` keeps
  -- the window right, and each datagram that it sends carries a packet that was read, with the text of
  -- its block up to the block's first NUL, or is the last one, with -1.
  pub round-Sound :
      (num : ℕ) (d : Option Datagram) (s : Sender)
      → Inv content s
      → 0 < s.head
      → let r = round num d s in Inv content r.0 × All (Truthful content r.0.tail) r.1
  unfolding round
  round-Sound num none s v h =
      if-ind Sound (num == 2) _ _ (λ _. (v, tt)) (λ _. on_timeout-Sound s v h)
  round-Sound num (some d) s v h =
      if-ind Sound (num == 2) _ _ (λ _. on_response-Sound d s v h) (λ _. on_timeout-Sound s v h)

-- After the first window, with 100 slots and a message buffer of 1360 bytes of text, the slots hold
-- the first hundred packets, and each datagram that was sent carries one of them.
pub start-Sound :
    (mess : Message) (window : List Message) (content : List ℕ)
    → length window ≡ 100
    → length mess.text ≡ 1360
    → let r = start mess window content in Inv content r.0 × All (Truthful content 100) r.1
unfolding start init
start-Sound mess window content hw hm =
    let f =
      fill_window-Filling content 100 1 (init mess window content) (omega arith) (omega arith)
        (record {
          next = refl;
          rest = refl;
          window_len = hw;
          mess_len = hm;
          slots = λ j lo hi. absurd (omega arith);
        }) in
    (
      record {
        next = f.0.next ∙ omega (arith, f.2);
        span = omega (arith, f.1, f.2);
        rest = f.0.rest ∙ ap (λ k. drop (chunk_len * k) content) (sym f.2);
        window_len = f.0.window_len;
        mess_len = f.0.mess_len;
        slots = λ i low lo hi. f.0.slots i low (omega (arith, f.2));
      },
      f.3,
    )
