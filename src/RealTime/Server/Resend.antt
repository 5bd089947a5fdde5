-- ===== src/RealTime/Server/Resend.antt =====
-- p2/source/rt_srv.c: what the server keeps of what it sent, and what it sends again.
use cs2520_2021spring.Common.{
  ℕ, zero, suc, ◌+◌, ◌%◌, ◌≤◌, ◌≡◌, refl, ap, arith, if-ind, List, [], length, get_or,
}
use cs2520_2021spring.Common.Int.{◌<ℤ◌, ℤ, pos, negsuc, pos_part}
use cs2520_2021spring.Timeval.{Timeval}
use cs2520_2021spring.RealTime.Receiver.{blank}
use cs2520_2021spring.RealTime.Server.{Server, Out, resend, may_resend, again}

-- The number asks for nothing: it is -1, or lies before the window.
abbrev pub Idle : ℤ → Server → Type 0
Idle n s = n <ℤ pos s.head

-- No packet of the window asks for anything.
abbrev pub Quiet : Server → Type 0
Quiet s = (j i : ℕ) → Idle (get_or (get_or s.window j blank).nack i (negsuc 0)) s

-- Once nothing is asked for, nothing is sent again.
resend_none :
    (now sent : ℕ → Timeval) (n i : ℕ) (s : Server)
    → ((k : ℕ) → Idle (get_or s.rcv_pkt.nack k (negsuc 0)) s)
    → (resend now sent n i s).1 ≡ []
unfolding resend may_resend
resend_none now sent zero i s quiet = refl
resend_none now sent (suc n) i s quiet =
    ground (arith, quiet i, resend_none now sent n (i + 1) s quiet)

-- Of one ACK at most one packet is sent again, however many it asks for, if the packets of the window
-- ask for none from `head` on: the packet that is sent again takes the place of the request.
pub length-resend-le-one :
    (now sent : ℕ → Timeval) (n i : ℕ) (s : Server) → Quiet s → length (resend now sent n i s).1 ≤ 1
unfolding resend
length-resend-le-one now sent zero i s quiet = omega arith
length-resend-le-one now sent (suc n) i s quiet =
    let lost = get_or s.rcv_pkt.nack i (negsuc 0) in
    let t : Server = record s {
      rcv_pkt = again (sent i) lost s;
      total_count = s.total_count + 1;
    } in
    if-ind (λ (x : Server × List Out). length x.1 ≤ 1) (may_resend (now i) lost s) _ _
      (λ _.
        omega
          (arith, ap length (resend_none now sent n (i + 1) t (quiet (pos_part lost % s.size)))))
      (λ _. length-resend-le-one now sent n (i + 1) s quiet)
