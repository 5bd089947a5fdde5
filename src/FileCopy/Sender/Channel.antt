-- ===== src/FileCopy/Sender/Channel.antt =====
-- p1/source/ncp.c: what the sender sends before its last datagram goes through `sendto_dbg`.
use cs2520_2021spring.Common.{
  ℕ, zero, suc, ◌+◌, ◌-◌, ◌≡◌, leb, ◌==◌, ◌&&◌, if-ind, Option, none, some, List, [], ◌∷◌, All,
}
use cs2520_2021spring.Common.Int.{ℤ, pos, negsuc, pos_part, ltb_ℤ, leb_ℤ, ◌==ℤ◌, sub_ℕ}
use cs2520_2021spring.FileCopy.Message.{Datagram}
use cs2520_2021spring.FileCopy.Sender.{
  Sender, Out, lossy, direct, go_on, Result, finish, resend_nacks, send_next, shift, slide, arrive,
  is_done, on_response, resend_window, on_timeout, round,
}

abbrev pub IsLossy : Out → Type 0
IsLossy (lossy d) = Unit
IsLossy (direct d) = ⊥

resend_nacks-IsLossy : (ns : List ℤ) (s : Sender) → All IsLossy (resend_nacks ns s)
unfolding resend_nacks
resend_nacks-IsLossy [] s = tt
resend_nacks-IsLossy (negsuc k ∷ ns) s = tt
resend_nacks-IsLossy (pos n ∷ ns) s =
    if-ind (All IsLossy) (leb s.head n && leb n s.tail) _ _ (λ _. (tt, resend_nacks-IsLossy ns s))
      (λ _. resend_nacks-IsLossy ns s)

send_next-IsLossy : (s : Sender) → IsLossy (send_next s).1
unfolding send_next
send_next-IsLossy s = tt

shift-IsLossy : (n ack : ℕ) (s : Sender) → All IsLossy (shift n ack s).1
unfolding shift
shift-IsLossy zero ack s = tt
shift-IsLossy (suc n) ack s =
    if-ind (λ (x : Sender × List Out). All IsLossy x.1) (send_next s).0.eof _ _
      (λ _. (send_next-IsLossy s, tt))
      (λ _. (send_next-IsLossy s, shift-IsLossy n ack (send_next s).0))

slide-IsLossy : (ack : ℕ) (s : Sender) → All IsLossy (slide ack s).1
unfolding slide
slide-IsLossy ack s =
    if-ind (λ (x : Sender × List Out). All IsLossy x.1) s.eof _ _ (λ _. tt)
      (λ _. shift-IsLossy (ack + 1 - s.head) ack s)

resend_window-IsLossy : (n i : ℕ) (s : Sender) → All IsLossy (resend_window n i s)
unfolding resend_window
resend_window-IsLossy zero i s = tt
resend_window-IsLossy (suc n) i s = (tt, resend_window-IsLossy n (i + 1) s)

-- Unless it ends the program, it sends no last datagram.
abbrev GoesOn : Result → Type 0
GoesOn x = x.2 ≡ go_on → All IsLossy x.1

finish-GoesOn : (s : Sender) → GoesOn (finish s)
unfolding finish
finish-GoesOn s e = cc

on_response-GoesOn : (d : Datagram) (s : Sender) → GoesOn (on_response d s)
unfolding on_response
on_response-GoesOn d s =
    let t = arrive d s in
    if-ind GoesOn (is_done d.hdr.cack t) _ _ (λ _. finish-GoesOn t)
      (λ _.
        if-ind GoesOn (ltb_ℤ d.hdr.cack (sub_ℕ t.head 1)) _ _ (λ _ e. tt)
          (λ _.
            if-ind GoesOn (d.hdr.cack ==ℤ sub_ℕ t.head 1) _ _
              (λ _ e. resend_nacks-IsLossy d.hdr.nack t)
              (λ _.
                if-ind GoesOn (leb_ℤ (pos t.head) d.hdr.cack) _ _
                  (λ _ e. slide-IsLossy (pos_part d.hdr.cack) t) (λ _ e. tt))))

on_timeout-GoesOn : (s : Sender) → GoesOn (on_timeout s)
unfolding on_timeout
on_timeout-GoesOn s =
    if-ind GoesOn (s.head == s.tail) _ _ (λ _. finish-GoesOn s)
      (λ _ e. resend_window-IsLossy (s.tail + 1 - s.head) s.head s)

-- A round that does not end the program sends no last datagram.
pub round-GoesOn : (num : ℕ) (d : Option Datagram) (s : Sender) → GoesOn (round num d s)
unfolding round
round-GoesOn num none s = if-ind GoesOn (num == 2) _ _ (λ _ e. tt) (λ _. on_timeout-GoesOn s)
round-GoesOn num (some d) s =
    if-ind GoesOn (num == 2) _ _ (λ _. on_response-GoesOn d s) (λ _. on_timeout-GoesOn s)
