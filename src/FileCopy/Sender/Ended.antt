-- ===== src/FileCopy/Sender/Ended.antt =====
-- p1/source/ncp.c: the last byte of every text that the sender keeps or sends stays a NUL, once that of
-- its message buffer is one.
use cs2520_2021spring.Common.{
  length-set, ℕ, zero, suc, ◌+◌, ◌%◌, ◌≤◌, ◌<◌, ◌≡◌, refl, sym, ◌∙◌, subst, if-ind, Bool-cases, inl,
  inr, List, [], ◌∷◌, length, get_or, set, All, arith, Option, none, some, dec_eq, get_or-set_self,
  get_or-set_ne, length-take-le, leb, ltb, ◌&&◌, ◌==◌, take,
}
use cs2520_2021spring.Common.Int.{ℤ, pos, negsuc, pos_part, leb_ℤ, ltb_ℤ, ◌==ℤ◌, sub_ℕ}
use cs2520_2021spring.Common.Bytes.{cstr}
use cs2520_2021spring.FileCopy.Message.{Message, Datagram, chunk_len}
use cs2520_2021spring.FileCopy.Buffer.{IsEnded, overwrite-IsEnded, block-IsEnded, cstr-IsEnded}
use cs2520_2021spring.FileCopy.Sender.{
  Sender, Out, lossy, direct, blank, Result, read_chunk, stamp, keep, fill_window, init, start,
  send_next, shift, slide, finish, resend_nacks, resend_window, arrive, on_response, on_timeout,
  round, is_done,
}

abbrev pub HasEnd : Message → Type 0
HasEnd m = IsEnded 1359 m.text

blank-HasEnd : HasEnd blank
unfolding cstr
blank-HasEnd = refl

-- The message buffer and all slots are ended behind a block.
pub record Ended (s : Sender) : Type 0 where
  pub mess : HasEnd s.mess
  pub slots : (i : ℕ) → HasEnd (get_or s.window i blank)

abbrev pub EndedOut : Out → Type 0
EndedOut (lossy d) = IsEnded 1359 d.payload
EndedOut (direct d) = IsEnded 1359 d.payload

read-HasEnd : (s : Sender) → HasEnd s.mess → HasEnd (stamp (read_chunk s)).mess
unfolding stamp read_chunk
read-HasEnd s h =
    overwrite-IsEnded 1359 s.mess.text _ h
      (block-IsEnded 1359 (take chunk_len s.source) (length-take-le chunk_len s.source))

pub set-HasEnd :
    (window : List Message) (i : ℕ) (m : Message)
    → HasEnd m
    → ((j : ℕ) → HasEnd (get_or window j blank))
    → (j : ℕ) → HasEnd (get_or (set window i m) j blank)
set-HasEnd [] i m h all j = all j
set-HasEnd (w ∷ window) zero m h all zero = h
set-HasEnd (w ∷ window) zero m h all (suc j) = all (suc j)
set-HasEnd (w ∷ window) (suc i) m h all zero = all 0
set-HasEnd (w ∷ window) (suc i) m h all (suc j) = set-HasEnd window i m h (λ k. all (suc k)) j

send_next-Ended : (s : Sender) → Ended s → Ended (send_next s).0 × EndedOut (send_next s).1
unfolding send_next keep stamp read_chunk
send_next-Ended s e =
    let m = read-HasEnd s e.mess in
    (record { mess = m; slots = set-HasEnd s.window _ _ m e.slots }, cstr-IsEnded 1359 _ m)

abbrev Keeps : Sender × List Out → Type 0
Keeps (s, out) = Ended s × All EndedOut out

head-Ended : (h : ℕ) (s : Sender) → Ended s → Ended (record s { head = h })
head-Ended h s e = record { mess = e.mess; slots = e.slots }

shift-Ended : (n ack : ℕ) (s : Sender) → Ended s → Keeps (shift n ack s)
unfolding shift
shift-Ended zero ack s e = (e, tt)
shift-Ended (suc n) ack s e =
    let (t, o) = send_next-Ended s e in
    if-ind Keeps (send_next s).0.eof _ _ (λ _. (head-Ended (ack + 1) (send_next s).0 t, (o, tt)))
      (λ _. let ih = shift-Ended n ack (send_next s).0 t in (ih.0, (o, ih.1)))

slide-Ended : (ack : ℕ) (s : Sender) → Ended s → Keeps (slide ack s)
unfolding slide
slide-Ended ack s e =
    if-ind Keeps s.eof _ _ (λ _. (head-Ended (ack + 1) s e, tt)) (λ _. shift-Ended _ ack s e)

resend_nacks-Ended : (ns : List ℤ) (s : Sender) → Ended s → All EndedOut (resend_nacks ns s)
unfolding resend_nacks
resend_nacks-Ended [] s e = tt
resend_nacks-Ended (negsuc k ∷ ns) s e = tt
resend_nacks-Ended (pos n ∷ ns) s e =
    if-ind (All EndedOut) (leb s.head n && leb n s.tail) _ _
      (λ _. (e.slots (n % 100), resend_nacks-Ended ns s e)) (λ _. resend_nacks-Ended ns s e)

resend_window-Ended : (n i : ℕ) (s : Sender) → Ended s → All EndedOut (resend_window n i s)
unfolding resend_window
resend_window-Ended zero i s e = tt
resend_window-Ended (suc n) i s e = (e.slots (i % 100), resend_window-Ended n (i + 1) s e)

finish-Ended : (s : Sender) → Ended s → Keeps ((finish s).0, (finish s).1)
unfolding finish
finish-Ended s e = (record { mess = e.mess; slots = e.slots }, (cstr-IsEnded 1359 _ e.mess, tt))

abbrev KeepsResult : Result → Type 0
KeepsResult (s, out, next) = Keeps (s, out)

arrive-Ended : (d : Datagram) (s : Sender) → IsEnded 1359 d.payload → Ended s → Ended (arrive d s)
arrive-Ended d s h e = record {
  mess = overwrite-IsEnded 1359 s.mess.text d.payload e.mess h;
  slots = e.slots;
}

on_response-Ended :
    (d : Datagram) (s : Sender) → IsEnded 1359 d.payload → Ended s → KeepsResult (on_response d s)
unfolding on_response
on_response-Ended d s h e =
    let t = arrive d s in
    let w = arrive-Ended d s h e in
    if-ind KeepsResult (is_done d.hdr.cack t) _ _ (λ _. finish-Ended t w)
      (λ _.
        if-ind KeepsResult (ltb_ℤ d.hdr.cack (sub_ℕ t.head 1)) _ _ (λ _. (w, tt))
          (λ _.
            if-ind KeepsResult (d.hdr.cack ==ℤ sub_ℕ t.head 1) _ _
              (λ _. (w, resend_nacks-Ended d.hdr.nack t w))
              (λ _.
                if-ind KeepsResult (leb_ℤ (pos t.head) d.hdr.cack) _ _
                  (λ _. slide-Ended (pos_part d.hdr.cack) t w) (λ _. (w, tt)))))

on_timeout-Ended : (s : Sender) → Ended s → KeepsResult (on_timeout s)
unfolding on_timeout
on_timeout-Ended s e =
    if-ind KeepsResult (s.head == s.tail) _ _ (λ _. finish-Ended s e)
      (λ _. (e, resend_window-Ended _ s.head s e))

-- An answer whose text, if it has any, is ended keeps all texts ended.
pub round-Ended :
    (num : ℕ) (d : Option Datagram) (s : Sender)
    → ((x : Datagram) → d ≡ some x → IsEnded 1359 x.payload)
    → Ended s
    → let r = round num d s in Ended r.0 × All EndedOut r.1
unfolding round
round-Ended num none s h e =
    if-ind KeepsResult (num == 2) _ _ (λ _. (e, tt)) (λ _. on_timeout-Ended s e)
round-Ended num (some d) s h e =
    if-ind KeepsResult (num == 2) _ _ (λ _. on_response-Ended d s (h d refl) e)
      (λ _. on_timeout-Ended s e)

-- The first window overwrites all slots, whatever they held.
fill_window-Ended :
    (n i : ℕ) (s : Sender)
    → 0 < i
    → i + n ≡ 101
    → length s.window ≡ 100
    → HasEnd s.mess
    → ((j : ℕ) → 0 < j → j < i → HasEnd (get_or s.window (j % 100) blank))
    → let r = fill_window n i s in
      HasEnd r.0.mess
      × (length r.0.window ≡ 100)
      × ((j : ℕ) → 0 < j → j < 101 → HasEnd (get_or r.0.window (j % 100) blank))
      × All EndedOut r.1
unfolding fill_window keep stamp read_chunk
fill_window-Ended zero i s low e len m done = (m, len, λ j lo hi. done j lo (omega arith), tt)
fill_window-Ended (suc n) i s low e len m done =
    let new = read-HasEnd s m in
    let t = keep i (stamp (read_chunk s)) in
    let ih =
      fill_window-Ended n (i + 1) t (omega arith) (omega arith)
        (length-set s.window (i % 100) _ ∙ len) new
        (λ j lo hi. elim (dec_eq (i % 100) (j % 100)) [
          | inl p ↦
              subst (λ k. HasEnd (get_or t.window k blank)) p
                (subst HasEnd (sym (get_or-set_self s.window (i % 100) _ blank (omega arith))) new)
          | inr q ↦
              subst HasEnd (sym (get_or-set_ne s.window (i % 100) (j % 100) _ blank q))
                (done j lo (omega arith))
        ]) in
    (ih.0, ih.1, ih.2, (cstr-IsEnded 1359 _ new, ih.3))

get_or-beyond : (xs : List Message) (i : ℕ) → length xs ≤ i → get_or xs i blank ≡ blank
get_or-beyond [] i h = refl
get_or-beyond (x ∷ xs) zero h = absurd (omega arith)
get_or-beyond (x ∷ xs) (suc i) h = get_or-beyond xs i (omega arith)

slot_number :
    (window : List Message) (i : ℕ)
    → length window ≡ 100
    → ((j : ℕ) → 0 < j → j < 101 → HasEnd (get_or window (j % 100) blank))
    → HasEnd (get_or window i blank)
slot_number window zero len all = all 100 (omega arith) (omega arith)
slot_number window (suc i) len all = elim (Bool-cases (ltb (suc i) 100)) [
  | inl p ↦
      let e : suc i % 100 ≡ suc i = ground arith in
      subst (λ k. HasEnd (get_or window k blank)) e (all (suc i) (omega arith) (ground arith))
  | inr p ↦ subst HasEnd (sym (get_or-beyond window (suc i) (ground arith))) blank-HasEnd
]

-- From a message buffer whose last byte is a NUL, the first window leaves all texts ended.
pub start-Ended :
    (mess : Message) (window : List Message) (content : List ℕ)
    → length window ≡ 100
    → HasEnd mess
    → let r = start mess window content in Ended r.0 × All EndedOut r.1
unfolding start init
start-Ended mess window content len m =
    let f =
      fill_window-Ended 100 1 (init mess window content) (omega arith) refl len m
        (λ j lo hi. absurd (omega arith)) in
    (record { mess = f.0; slots = λ i. slot_number _ i f.1 f.2 }, f.3)
