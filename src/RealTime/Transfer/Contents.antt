-- ===== src/RealTime/Transfer/Contents.antt =====
-- p2/source/rt_srv.c: under its number, a packet of data carries what the application gave under it.
use cs2520_2021spring.Common.{
  if◌then◌else◌, ℕ, zero, suc, ◌+◌, ◌-◌, ◌≤◌, ◌<◌, ◌≡◌, refl, ap, sym, arith, Bool, true, ltb, ◌&&◌,
  ◌||◌, if-ind, Option, none, some, List, [], ◌∷◌, ◌++◌, length, get_or, All, All-append,
  length-append, get_or-set_keeps, get_or-append_left, get_or-append_end, ◌∙◌,
}
use cs2520_2021spring.Common.Int.{ℤ, pos, negsuc, pos_part, ◌==ℤ◌}
use cs2520_2021spring.Timeval.{Timeval}
use cs2520_2021spring.FileCopy.Message.{Addr}
use cs2520_2021spring.RealTime.Packet.{Package, nack_size}
use cs2520_2021spring.RealTime.Receiver.{blank}
use cs2520_2021spring.RealTime.Server
use cs2520_2021spring.RealTime.Server.{
  Server, Out, AppPkt, data_pkt, on_app, resend, may_resend, again, on_ack, on_request, on_network,
  slide_head, is_expired, cmp_addr,
}

-- The content is what was given under the number; numbers below 1 were never given.
abbrev pub Right : List (List ℕ) → ℤ → List ℕ → Type 0
Right given seq content =
    (n : ℕ) → 0 < n → seq ≡ pos n → (n ≤ length given) × (content ≡ get_or given (n - 1) [])

abbrev pub Faithful : List (List ℕ) → Package → Type 0
Faithful given p = Right given p.seq p.content

abbrev pub is_data : Package → Bool
is_data p = p.kind ==ℤ pos 0 || p.kind ==ℤ pos 6

-- What the server sends: if it is data, it is right.
abbrev pub Carried : List (List ℕ) → Package → Type 0
Carried given p = is_data p ≡ true → Faithful given p

-- Every slot of the server's window holds a right packet, or one that was never given.
abbrev pub Kept : List (List ℕ) → List Package → Type 0
Kept given window = (j : ℕ) → Faithful given (get_or window j blank)

pub Right-append :
    (given : List (List ℕ)) (x : List ℕ) (seq : ℤ) (content : List ℕ)
    → Right given seq content
    → Right (given ++ x ∷ []) seq content
Right-append given x seq content right n low e =
    let (le, same) = right n low e in
    (
      omega (arith, le, length-append {0} given (x ∷ [])),
      same ∙ sym (get_or-append_left {0} given (x ∷ []) (n - 1) [] (omega (arith, le, low))),
    )

number : {a b : ℕ} → pos a ≡ pos b → a ≡ b
number e = ap pos_part e

-- The content that is given now, under the next number.
Right-next :
    (given : List (List ℕ)) (x : List ℕ) (seq : ℕ)
    → seq ≡ length given + 1
    → Right (given ++ x ∷ []) (pos seq) x
Right-next given x seq counted n low e =
    let last : length given ≡ n - 1 = omega (arith, counted, number e) in
    (
      omega (arith, counted, number e, length-append {0} given (x ∷ [])),
      sym (get_or-append_end given x []) ∙ ap (λ k. get_or (given ++ x ∷ []) k []) last,
    )

pub on_app-Kept :
    (now : Timeval) (app : AppPkt) (s : Server) (given : List (List ℕ))
    → s.seq ≡ length given + 1
    → Kept given s.window
    → Kept (given ++ app.content ∷ []) (on_app now app s).0.window
      × Faithful (given ++ app.content ∷ []) (data_pkt now app s)
      × ((on_app now app s).0.seq ≡ s.seq + 1)
      × ((on_app now app s).1 ≡ record { to = s.rcv_addr; pkt = data_pkt now app s } ∷ [])
unfolding on_app
on_app-Kept now app s given counted kept =
    let next = Right-next given app.content s.seq counted in
    (
      λ j.
          get_or-set_keeps (Faithful (given ++ app.content ∷ [])) s.window _ j (data_pkt now app s)
            blank next (Right-append given app.content _ _ (kept j)),
      next,
      refl,
      refl,
    )

-- The branches for the network leave the window and the number alone, and send right data only.
abbrev pub Serves : List (List ℕ) → Server → Server × List Out → Type 0
Serves given s x = (x.0.window ≡ s.window) × (x.0.seq ≡ s.seq) × All (λ o. Carried given o.pkt) x.1

resend-Serves :
    (given : List (List ℕ)) (now sent : ℕ → Timeval) (n i : ℕ) (s : Server)
    → Kept given s.window
    → Serves given s (resend now sent n i s)
unfolding resend
resend-Serves given now sent zero i s kept = (refl, refl, tt)
resend-Serves given now sent (suc n) i s kept =
    let lost = get_or s.rcv_pkt.nack i (negsuc 0) in
    let t : Server = record s {
      rcv_pkt = again (sent i) lost s;
      total_count = s.total_count + 1;
    } in
    if-ind (Serves given s) (may_resend (now i) lost s) _ _
      (λ _.
        let (window, seq, rest) = resend-Serves given now sent n (i + 1) t kept in
        (window, seq, (λ _. kept _, rest)))
      (λ _. resend-Serves given now sent n (i + 1) s kept)

on_ack-Serves :
    (given : List (List ℕ)) (acked : Timeval) (now sent : ℕ → Timeval) (s : Server)
    → Kept given s.window
    → Serves given s (on_ack acked now sent s)
unfolding on_ack
on_ack-Serves given acked now sent s kept =
    let p : Package = record s.rcv_pkt { kind = pos 1; ackack_ts = acked } in
    let (window, seq, rest) =
      resend-Serves given now sent nack_size 0
        (record s { halfrtt = s.rcv_pkt.halfrtt; rcv_pkt = p }) kept in
    (window, seq, (λ e. absurd (ground (arith, e)), rest))

on_request-Serves :
    (given : List (List ℕ)) (now : Timeval) (s : Server) → Serves given s (on_request now s)
unfolding on_request
on_request-Serves given now s =
    if-ind (Serves given s) (cmp_addr s.current_addr s.rcv_addr ==ℤ negsuc 0) _ _
      (λ _. (refl, refl, (λ e. absurd (ground (arith, e)), tt))) (λ _. (refl, refl, tt))

pub on_network-Serves :
    (given : List (List ℕ)) (c : Server.Clocks) (from : Addr) (p : Package) (s : Server)
    → Kept given s.window
    → Serves given s (on_network c from p s)
unfolding on_network
on_network-Serves given c from p s kept =
    let t = Server.arrive from p s in
    let u = if p.kind ==ℤ pos 2 then on_ack c.acked c.now c.sent t else (t, []) in
    let v = if u.0.rcv_pkt.kind ==ℤ pos 3 then on_request c.refused u.0 else (u.0, []) in
    let (window, seq, outs) : Serves given s u =
      if-ind (Serves given s) (p.kind ==ℤ pos 2) _ _
        (λ _. on_ack-Serves given c.acked c.now c.sent t kept) (λ _. (refl, refl, tt)) in
    let (window2, seq2, outs2) : Serves given u.0 v =
      if-ind (Serves given u.0) (u.0.rcv_pkt.kind ==ℤ pos 3) _ _
        (λ _. on_request-Serves given c.refused u.0) (λ _. (refl, refl, tt)) in
    (window2 ∙ window, seq2 ∙ seq, All-append (λ o. Carried given o.pkt) u.1 v.1 outs outs2)

abbrev pub Slid : Server → Option Server → Type 0
Slid s none = Unit
Slid s (some t) = (t.window ≡ s.window) × (t.seq ≡ s.seq)

pub slide_head-Slid :
    (fuel : ℕ) (now : Timeval) (i : ℕ) (s : Server) → Slid s (slide_head fuel now i s)
unfolding slide_head
slide_head-Slid zero now i s = tt
slide_head-Slid (suc fuel) now i s =
    if-ind (Slid s) (ltb i (s.head + s.size) && is_expired now i s) _ _
      (λ _. slide_head-Slid fuel now (i + 1) (record s { head = s.head + 1 })) (λ _. (refl, refl))
