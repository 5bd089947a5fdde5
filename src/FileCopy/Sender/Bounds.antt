-- ===== src/FileCopy/Sender/Bounds.antt =====
-- p1/source/ncp.c: how far a round moves `head` and `tail`.
use cs2520_2021spring.Common.{
  ℕ, zero, suc, ◌+◌, ◌-◌, ◌≤◌, ◌≡◌, refl, List, arith, Option, none, some,
}
use cs2520_2021spring.Common.Int.{pos, pos_part, ◌<ℤ◌}
use cs2520_2021spring.FileCopy.Message.{Message, Datagram}
use cs2520_2021spring.FileCopy.Sender.{
  Sender, read_chunk, stamp, keep, fill_window, init, start, send_next, shift, slide, finish,
  arrive, on_response, on_timeout, round,
}

send_next-head : (s : Sender) → (send_next s).0.head ≡ s.head + 1
unfolding send_next
send_next-head s = refl

shift-head : (n ack : ℕ) (s : Sender) → s.head + n ≡ ack + 1 → (shift n ack s).0.head ≡ ack + 1
unfolding shift
shift-head zero ack s e = omega arith
shift-head (suc n) ack s e =
    ground
      (arith, send_next-head s, shift-head n ack (send_next s).0 (omega (arith, send_next-head s)))

slide-head : (ack : ℕ) (s : Sender) → s.head ≤ ack → (slide ack s).0.head ≡ ack + 1
unfolding slide
slide-head ack s h = ground (arith, shift-head (ack + 1 - s.head) ack s (omega arith))

-- No answer moves `head` back, nor past the packet behind the one that it acknowledges.
pub on_response-head :
    (d : Datagram) (s : Sender) (h : ℕ)
    → s.head ≤ h
    → d.hdr.cack <ℤ pos h
    → let t = (on_response d s).0 in (s.head ≤ t.head) × (t.head ≤ h)
unfolding on_response finish
on_response-head d s h le ack = ground (arith, slide-head (pos_part d.hdr.cack) (arrive d s))

on_timeout-frame :
    (s : Sender) → ((on_timeout s).0.head ≡ s.head) × ((on_timeout s).0.tail ≡ s.tail)
unfolding on_timeout finish
on_timeout-frame s = ground arith

send_next-tail : (s : Sender) → (send_next s).0.tail ≡ s.tail + 1
unfolding send_next
send_next-tail s = refl

shift-tail : (n ack : ℕ) (s : Sender) → s.tail ≤ (shift n ack s).0.tail
unfolding shift
shift-tail zero ack s = omega arith
shift-tail (suc n) ack s = ground (arith, send_next-tail s, shift-tail n ack (send_next s).0)

on_response-tail : (d : Datagram) (s : Sender) → s.tail ≤ (on_response d s).0.tail
unfolding on_response finish slide
on_response-tail d s =
    ground (arith, shift-tail (pos_part d.hdr.cack + 1 - s.head) (pos_part d.hdr.cack) (arrive d s))

-- No round moves `head` or `tail` back, nor `head` past a bound above the packets acknowledged.
pub round-bounds :
    (num : ℕ) (d : Option Datagram) (s : Sender) (h : ℕ)
    → s.head ≤ h
    → ((x : Datagram) → d ≡ some x → x.hdr.cack <ℤ pos h)
    → let t = (round num d s).0 in (s.head ≤ t.head) × (t.head ≤ h) × (s.tail ≤ t.tail)
unfolding round
round-bounds num none s h le ack = ground (arith, on_timeout-frame s)
round-bounds num (some d) s h le ack =
    ground (arith, on_timeout-frame s, on_response-head d s h le (ack d refl), on_response-tail d s)

fill_window-frame :
    (n i : ℕ) (s : Sender)
    → ((fill_window n i s).0.head ≡ s.head) × ((fill_window n i s).0.tail ≡ s.tail)
unfolding fill_window keep stamp read_chunk
fill_window-frame zero i s = (refl, refl)
fill_window-frame (suc n) i s = fill_window-frame n (i + 1) (keep i (stamp (read_chunk s)))

-- The first window is the packets 1 to 100.
pub start-frame :
    (mess : Message) (window : List Message) (content : List ℕ)
    → let s = (start mess window content).0 in (s.head ≡ 1) × (s.tail ≡ 100)
unfolding start init
start-frame mess window content = fill_window-frame 100 1 (init mess window content)
