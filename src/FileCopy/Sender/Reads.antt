-- ===== src/FileCopy/Sender/Reads.antt =====
-- p1/source/ncp.c: until the end of the file the window is full, every shift reads on.
use cs2520_2021spring.Common.{
  drop-all, length-take-le_length, ap, ℕ, zero, suc, ◌+◌, ◌-◌, ◌≤◌, ◌<◌, ◌≡◌, refl, arith, Bool,
  true, false, ltb, ◌==◌, if-ind, le_or_lt, ltb→lt, Bool-cases, ◌⊎◌, inl, inr, Option, none, some,
  List, length, take, drop, length-take, length-drop,
}
use cs2520_2021spring.Common.Int.{pos, pos_part, ltb_ℤ, leb_ℤ, ◌==ℤ◌, sub_ℕ}
use cs2520_2021spring.FileCopy.Message.{Datagram, chunk_len}
use cs2520_2021spring.FileCopy.Sender.{
  Sender, Out, go_on, Result, read_chunk, stamp, keep, finish, send_next, shift, slide, arrive,
  is_done, on_response, on_timeout, round,
}

-- Until the end of the file is read, the window is full, and then nothing is left to read.
abbrev pub Full : Sender → Type 0
Full s = (s.eof ≡ false → s.tail ≡ s.head + 99) × (s.eof ≡ true → length s.source ≡ 0)

pub conflict : {b : Bool} → b ≡ true → b ≡ false → ⊥
conflict p q = absurd (ground (arith, p, q))

nothing_left :
    (xs : List ℕ) → ltb (length (take chunk_len xs)) chunk_len ≡ true → length xs ≤ chunk_len
nothing_left xs short = elim (le_or_lt (length xs) chunk_len) [
  | inl p ↦ p
  | inr q ↦ absurd (
      omega (
        arith,
        ltb→lt (length (take chunk_len xs)) chunk_len short,
        length-take {0} chunk_len xs (omega (arith, q)),
      ))
]

send_next-Full : (s : Sender) → Full s → Full (send_next s).0
unfolding send_next keep stamp read_chunk
send_next-Full s (full, over) =
    if-ind
      (λ b.
        (b ≡ false → s.tail + 1 ≡ s.head + 1 + 99)
        × (b ≡ true → length (drop chunk_len s.source) ≡ 0))
      (ltb (length (take chunk_len s.source)) chunk_len) true s.eof
      (λ short. (
        λ e. absurd (conflict refl e),
        λ _. ap length (drop-all {0} chunk_len s.source (nothing_left s.source short)),
      ))
      (λ _. (
        λ more. omega (arith, full more),
        λ e. omega (arith, over e, length-drop {0} chunk_len s.source),
      ))

shift-Full : (n ack : ℕ) (s : Sender) → Full s → Full (shift n ack s).0
unfolding shift
shift-Full zero ack s f = f
shift-Full (suc n) ack s f =
    let f2 = send_next-Full s f in
    if-ind (λ (x : Sender × List Out). Full x.0) (send_next s).0.eof _ _
      (λ over. (λ e. absurd (conflict over e), f2.1)) (λ _. shift-Full n ack (send_next s).0 f2)

slide-Full : (ack : ℕ) (s : Sender) → Full s → Full (slide ack s).0
unfolding slide
slide-Full ack s f =
    if-ind (λ (x : Sender × List Out). Full x.0) s.eof _ _
      (λ over. (λ e. absurd (conflict over e), f.1)) (λ _. shift-Full (ack + 1 - s.head) ack s f)

abbrev Fills : Result → Type 0
Fills x = Full x.0

on_response-Full : (d : Datagram) (s : Sender) → Full s → Full (on_response d s).0
unfolding on_response finish
on_response-Full d s f =
    let t = arrive d s in
    if-ind Fills (is_done d.hdr.cack t) _ _ (λ _. f)
      (λ _.
        if-ind Fills (ltb_ℤ d.hdr.cack (sub_ℕ t.head 1)) _ _ (λ _. f)
          (λ _.
            if-ind Fills (d.hdr.cack ==ℤ sub_ℕ t.head 1) _ _ (λ _. f)
              (λ _.
                if-ind Fills (leb_ℤ (pos t.head) d.hdr.cack) _ _
                  (λ _. slide-Full (pos_part d.hdr.cack) t f) (λ _. f))))

on_timeout-Full : (s : Sender) → Full s → Full (on_timeout s).0
unfolding on_timeout finish
on_timeout-Full s f = if-ind Fills (s.head == s.tail) _ _ (λ _. f) (λ _. f)

-- Every round keeps the window full, until the end of the file.
pub round-Full : (num : ℕ) (d : Option Datagram) (s : Sender) → Full s → Full (round num d s).0
unfolding round
round-Full num none s f = if-ind Fills (num == 2) _ _ (λ _. f) (λ _. on_timeout-Full s f)
round-Full num (some d) s f =
    if-ind Fills (num == 2) _ _ (λ _. on_response-Full d s f) (λ _. on_timeout-Full s f)

-- The file is read to its end, or further than in `s`.
abbrev pub ReadOn : Sender → Sender → Type 0
ReadOn s t = (t.eof ≡ true) ⊎ (length t.source < length s.source)

length-drop-le : (k : ℕ) (xs : List ℕ) → length (drop k xs) ≤ length xs
length-drop-le k xs = omega (arith, length-drop {0} k xs)

send_next-ReadOn : (s : Sender) → ReadOn s (send_next s).0
unfolding send_next keep stamp read_chunk
send_next-ReadOn s = elim (Bool-cases (ltb (length (take chunk_len s.source)) chunk_len)) [
  | inl short ↦ inl (rw short refl)
  | inr long ↦ inr (
      ground (
        arith,
        long,
        length-drop {0} chunk_len s.source,
        length-take-le_length {0} chunk_len s.source,
      ))
]

send_next-onward : (s : Sender) → length (send_next s).0.source ≤ length s.source
unfolding send_next keep stamp read_chunk
send_next-onward s = length-drop-le chunk_len s.source

shift-onward : (n ack : ℕ) (s : Sender) → length (shift n ack s).0.source ≤ length s.source
unfolding shift
shift-onward zero ack s = omega arith
shift-onward (suc n) ack s =
    if-ind (λ (x : Sender × List Out). length x.0.source ≤ length s.source) (send_next s).0.eof _ _
      (λ _. send_next-onward s)
      (λ _. omega (arith, shift-onward n ack (send_next s).0, send_next-onward s))

shift-ReadOn : (n ack : ℕ) (s : Sender) → 0 < n → ReadOn s (shift n ack s).0
unfolding shift
shift-ReadOn zero ack s h = absurd (omega arith)
shift-ReadOn (suc n) ack s h =
    if-ind (λ (x : Sender × List Out). ReadOn s x.0) (send_next s).0.eof _ _ (λ over. inl over)
      (λ more. elim (send_next-ReadOn s) [
        | inl over ↦ absurd (conflict over more)
        | inr less ↦ inr (omega (arith, less, shift-onward n ack (send_next s).0))
      ])

abbrev GoesOnReading : Sender → Result → Type 0
GoesOnReading s x = ReadOn s x.0 × (x.2 ≡ go_on)

slide-ReadOn : (c : ℕ) (s : Sender) → s.eof ≡ false → s.head ≤ c → ReadOn s (slide c s).0
unfolding slide
slide-ReadOn c s more h =
    if-ind (λ (x : Sender × List Out). ReadOn s x.0) s.eof _ _ (λ over. absurd (conflict over more))
      (λ _. shift-ReadOn (c + 1 - s.head) c s (omega (arith, h)))

-- Before the end of the file, an acknowledgement of `head` or more makes the sender read on.
pub round-ReadOn :
    (d : Datagram) (c : ℕ) (s : Sender)
    → s.eof ≡ false
    → d.hdr.cack ≡ pos c
    → s.head ≤ c
    → ReadOn s (round 2 (some d) s).0 × ((round 2 (some d) s).2 ≡ go_on)
unfolding round on_response is_done
round-ReadOn d c s more e h =
    let t = arrive d s in
    let ack : pos_part d.hdr.cack ≡ c = ap pos_part e in
    if-ind (GoesOnReading s) (is_done d.hdr.cack t) _ _
      (λ done. absurd (ground (arith, done, more)))
      (λ _.
        if-ind (GoesOnReading s) (ltb_ℤ d.hdr.cack (sub_ℕ t.head 1)) _ _
          (λ late. absurd (ground (arith, late, e, h)))
          (λ _.
            if-ind (GoesOnReading s) (d.hdr.cack ==ℤ sub_ℕ t.head 1) _ _
              (λ other. absurd (ground (arith, other, e, h)))
              (λ _.
                if-ind (GoesOnReading s) (leb_ℤ (pos t.head) d.hdr.cack) _ _
                  (λ _. (slide-ReadOn (pos_part d.hdr.cack) t more (omega (arith, ack, h)), refl))
                  (λ new. absurd (ground (arith, new, e, h))))))
