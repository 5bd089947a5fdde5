-- ===== src/RealTime/Server/Counted.antt =====
-- p2/source/rt_srv.c: `send_count` and `total_count` count what the server sends.
use cs2520_2021spring.Common.{
  ℕ, zero, suc, ◌+◌, ◌≡◌, refl, ap, ◌∙◌, subst, arith, ltb, ◌&&◌, if◌then◌else◌, if-ind, Option,
  none, some, List, [], ◌∷◌, ◌++◌, get_or,
}
use cs2520_2021spring.Common.Int.{pos-sub, ℤ, pos, negsuc, ◌==ℤ◌}
use cs2520_2021spring.Timeval.{Timeval}
use cs2520_2021spring.FileCopy.Message.{Addr}
use cs2520_2021spring.RealTime.Packet.{Package, nack_size}
use cs2520_2021spring.RealTime.Server
use cs2520_2021spring.RealTime.Server.{
  Server, Out, AppPkt, on_app, resend, may_resend, again, on_ack, on_request, on_network,
  slide_head, is_expired, cmp_addr, accept, arrive,
}
use cs2520_2021spring.RealTime.Server.Loop.{
  Round, case_app, case_network, with_out, round, prepend_out, and_then, run,
}
use cs2520_2021spring.RealTime.Server.Report.{retransmissions}

-- How many of the packets are of the kind.
abbrev pub of_kind : ℤ → List Out → ℕ
of_kind k [] = 0
of_kind k (o ∷ os) = let rest = of_kind k os in if o.pkt.kind ==ℤ k then suc rest else rest

of_kind-append : (k : ℤ) (xs ys : List Out) → of_kind k (xs ++ ys) ≡ of_kind k xs + of_kind k ys
of_kind-append k [] ys = omega arith
of_kind-append k (o ∷ xs) ys = ground (arith, of_kind-append k xs ys)

-- A branch that sends `k` packets of the application and any number of packets again counts them.
pub record Counts (s : Server) (x : Server × List Out) : Type 0 where
  pub fresh : x.0.send_count ≡ s.send_count + of_kind (pos 0) x.1
  pub all : x.0.total_count ≡ s.total_count + of_kind (pos 0) x.1 + of_kind (pos 6) x.1
  pub next : x.0.seq ≡ s.seq + of_kind (pos 0) x.1

nothing-Counts : (s : Server) → Counts s (s, [])
nothing-Counts s = record { fresh = omega arith; all = omega arith; next = omega arith }

append-Counts :
    (s t : Server) (out : List Out) (x : Server × List Out)
    → Counts s (t, out)
    → Counts t x
    → Counts s (x.0, out ++ x.1)
append-Counts s t out x a b = record {
  fresh = omega (arith, a.fresh, b.fresh, of_kind-append (pos 0) out x.1);
  all = omega (arith, a.all, b.all, of_kind-append (pos 0) out x.1, of_kind-append (pos 6) out x.1);
  next = omega (arith, a.next, b.next, of_kind-append (pos 0) out x.1);
}

on_app-Counts : (now : Timeval) (app : AppPkt) (s : Server) → Counts s (on_app now app s)
unfolding on_app
on_app-Counts now app s = record { fresh = omega arith; all = omega arith; next = omega arith }

resend-Counts : (now sent : ℕ → Timeval) (n i : ℕ) (s : Server) → Counts s (resend now sent n i s)
unfolding resend
resend-Counts now sent zero i s = nothing-Counts s
resend-Counts now sent (suc n) i s =
    let lost = get_or s.rcv_pkt.nack i (negsuc 0) in
    let t : Server = record s {
      rcv_pkt = again (sent i) lost s;
      total_count = s.total_count + 1;
    } in
    let c = resend-Counts now sent n (i + 1) t in
    if-ind (Counts s) (may_resend (now i) lost s) _ _
      (λ _. record {
        fresh = omega (arith, c.fresh);
        all = omega (arith, c.all);
        next = omega (arith, c.next);
      })
      (λ _. resend-Counts now sent n (i + 1) s)

on_ack-Counts :
    (acked : Timeval) (now sent : ℕ → Timeval) (s : Server) → Counts s (on_ack acked now sent s)
unfolding on_ack
on_ack-Counts acked now sent s =
    let p : Package = record s.rcv_pkt { kind = pos 1; ackack_ts = acked } in
    let c =
      resend-Counts now sent nack_size 0 (record s { halfrtt = s.rcv_pkt.halfrtt; rcv_pkt = p }) in
    record {
      fresh = omega (arith, c.fresh);
      all = omega (arith, c.all);
      next = omega (arith, c.next);
    }

on_request-Counts : (now : Timeval) (s : Server) → Counts s (on_request now s)
unfolding on_request
on_request-Counts now s =
    if-ind (Counts s) (cmp_addr s.current_addr s.rcv_addr ==ℤ negsuc 0) _ _
      (λ _. record { fresh = omega arith; all = omega arith; next = omega arith })
      (λ _. nothing-Counts s)

on_network-Counts :
    (c : Server.Clocks) (from : Addr) (p : Package) (s : Server) → Counts s (on_network c from p s)
unfolding on_network
on_network-Counts c from p s =
    let t = arrive from p s in
    let u = if p.kind ==ℤ pos 2 then on_ack c.acked c.now c.sent t else (t, []) in
    let v = if u.0.rcv_pkt.kind ==ℤ pos 3 then on_request c.refused u.0 else (u.0, []) in
    let a : Counts t u =
      if-ind (Counts t) (p.kind ==ℤ pos 2) _ _ (λ _. on_ack-Counts c.acked c.now c.sent t)
        (λ _. nothing-Counts t) in
    let b : Counts u.0 v =
      if-ind (Counts u.0) (u.0.rcv_pkt.kind ==ℤ pos 3) _ _ (λ _. on_request-Counts c.refused u.0)
        (λ _. nothing-Counts u.0) in
    let e = append-Counts t u.0 u.1 v a b in record { fresh = e.fresh; all = e.all; next = e.next }

abbrev Slides : Server → Option Server → Type 0
Slides s none = Unit
Slides s (some t) =
    (t.send_count ≡ s.send_count) × (t.total_count ≡ s.total_count) × (t.seq ≡ s.seq)

slide_head-Slides :
    (fuel : ℕ) (now : Timeval) (i : ℕ) (s : Server) → Slides s (slide_head fuel now i s)
unfolding slide_head
slide_head-Slides zero now i s = tt
slide_head-Slides (suc fuel) now i s =
    if-ind (Slides s) (ltb i (s.head + s.size) && is_expired now i s) _ _
      (λ _. slide_head-Slides fuel now (i + 1) (record s { head = s.head + 1 }))
      (λ _. (refl, refl, refl))

case_app-Counts : (a : Option (Timeval × AppPkt)) (s : Server) → Counts s (case_app a s)
case_app-Counts none s = nothing-Counts s
case_app-Counts (some (now, app)) s = on_app-Counts now app s

case_network-Counts :
    (a : Option (Server.Clocks × Addr × Package)) (s : Server) → Counts s (case_network a s)
case_network-Counts none s = nothing-Counts s
case_network-Counts (some (c, from, p)) s = on_network-Counts c from p s

-- Where it returns, it counts.
abbrev pub Returns : Server → Option (Server × List Out) → Type 0
Returns s none = Unit
Returns s (some x) = Counts s x

slid-Returns :
    (s t : Server) (out : List Out) (o : Option Server)
    → Counts s (t, out)
    → Slides t o
    → Returns s (with_out out o)
slid-Returns s t out none c h = tt
slid-Returns s t out (some u) c (a, b, e) = record {
  fresh = a ∙ c.fresh;
  all = b ∙ c.all;
  next = e ∙ c.next;
}

round-Returns : (fuel : ℕ) (e : Round) (s : Server) → Returns s (round fuel e s)
unfolding round
round-Returns fuel e s =
    let t = case_app e.app s in
    let u = case_network e.network t.0 in
    slid-Returns s u.0 (t.1 ++ u.1) (slide_head fuel e.slides u.0.head u.0)
      (append-Counts s t.0 t.1 u (case_app-Counts e.app s) (case_network-Counts e.network t.0))
      (slide_head-Slides fuel e.slides u.0.head u.0)

then-Returns :
    (s : Server) (k : Server → Option (Server × List Out)) (o : Option (Server × List Out))
    → Returns s o
    → ((t : Server) → Returns t (k t))
    → Returns s (and_then k o)
then-Returns s k none h rest = tt
then-Returns s k (some (t, out)) h rest = both (k t) (rest t)
  where
    both : (o : Option (Server × List Out)) → Returns t o → Returns s (prepend_out out o)
    both none r = tt
    both (some x) r = append-Counts s t out x h r

run-Returns : (fuel : ℕ) (es : List Round) (s : Server) → Returns s (run fuel es s)
unfolding run
run-Returns fuel [] s = nothing-Counts s
run-Returns fuel (e ∷ es) s =
    then-Returns s (run fuel es) (round fuel e s) (round-Returns fuel e s) (run-Returns fuel es)

abbrev Fresh : Option (Server × List Out) → Type 0
Fresh none = Unit
Fresh (some x) = (x.0.send_count ≡ 0) × (x.0.total_count ≡ 0) × (x.0.seq ≡ 1)

accept-Fresh :
    (now : Timeval) (from : Addr) (p : Package) (window : List Package) (slide : List Timeval)
    → Fresh (accept now from p window slide)
unfolding accept
accept-Fresh now from p window slide =
    if-ind Fresh (p.kind ==ℤ pos 3) _ _ (λ _. (refl, refl, refl)) (λ _. tt)

-- From the connection on, whatever the rounds bring, after each number of rounds that end: the number of
-- packets sent that a report prints, which it prints as the highest number too, is how many packets of data
-- went out for the first time, the next number is one more, and the number of retransmissions that it
-- prints is how many packets went out again.
pub run-send_count :
    (now : Timeval) (from : Addr) (p : Package) (window : List Package) (slide : List Timeval)
    (s : Server) (outs : List Out) (fuel : ℕ) (es : List Round) (x : Server × List Out)
    → accept now from p window slide ≡ some (s, outs)
    → run fuel es s ≡ some x
    → (x.0.send_count ≡ of_kind (pos 0) x.1)
      × (x.0.seq ≡ x.0.send_count + 1)
      × (retransmissions x.0 ≡ pos (of_kind (pos 6) x.1))
unfolding retransmissions
run-send_count now from p window slide s outs fuel es x a e =
    let c = subst (Returns s) e (run-Returns fuel es s) in
    let (sent, total, first) = subst Fresh a (accept-Fresh now from p window slide) in
    (
      omega (arith, c.fresh, sent),
      omega (arith, c.next, c.fresh, sent, first),
      pos-sub x.0.total_count x.0.send_count (omega (arith, c.all, c.fresh, sent, total))
          ∙ ap pos (omega (arith, c.all, c.fresh, sent, total)),
    )
