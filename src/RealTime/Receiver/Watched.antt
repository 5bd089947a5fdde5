-- ===== src/RealTime/Receiver/Watched.antt =====
-- p2/source/rt_rcv.c: its main loop with the delays that it keeps. A round delivers what is due, and then
-- `select` brings a packet, with the clock that the first packet starts the time with, or a silence.
use cs2520_2021spring.Common.{
  ◌&&◌, ◌||◌, ℕ, ◌+◌, ◌≡◌, refl, sym, ap, ◌∙◌, subst, arith, Bool, true, false, ◌==◌, if◌then◌else◌,
  if-ind, Bool-cases, inl, inr, Option, none, some, List, [], ◌∷◌, length,
}
use cs2520_2021spring.Common.Int.{pos, ◌==ℤ◌}
use cs2520_2021spring.Common.Double.{Double}
use cs2520_2021spring.Timeval.{Timeval}
use cs2520_2021spring.RealTime.Packet.{Package, StreamPkt}
use cs2520_2021spring.RealTime.Delay.{oneway, larger, smaller}
use cs2520_2021spring.RealTime.Receiver.{
  Receiver, Clocks, receive, on_data, on_ackack, store, has_room, in_time, deliver_fuel,
  deliver_due,
}
use cs2520_2021spring.RealTime.Receiver.Window.{Inv}
use cs2520_2021spring.RealTime.Receiver.Deliver.{deliver_due_lem}
use cs2520_2021spring.RealTime.Receiver.Accept.{receive-Inv}
use cs2520_2021spring.RealTime.Receiver.Loss.{Moves, deliver-Moves}
use cs2520_2021spring.RealTime.Receiver.Monitor.{
  Monitor, takes, note, notes, on_accepted, watch, on_silence,
}

-- What a round brings behind its delivery.
abbrev pub Brings : Type 0
Brings = Option (Timeval × Clocks × Package)

both : (a b : Bool) (n : ℕ) → a ≡ true → b ≡ true → n + 1 ≡ n + (if a && b then 1 else 0)
both a b n h k = ground (arith, h, k)

not_first : (a b : Bool) (n : ℕ) → a ≡ false → n ≡ n + (if a && b then 1 else 0)
not_first a b n h = ground (arith, h)

not_second : (a b : Bool) (n : ℕ) → b ≡ false → n ≡ n + (if a && b then 1 else 0)
not_second a b n h = ground (arith, h)

-- A packet is counted just when it is accepted.
rcvd_count-receive :
    (c : Clocks) (p : Package) (r : Receiver)
    → (receive c p r).0.rcvd_count ≡ r.rcvd_count + (if takes c p r then 1 else 0)
unfolding takes receive on_data on_ackack store
rcvd_count-receive c p r =
    let a = p.kind ==ℤ pos 0 || p.kind ==ℤ pos 6 in
    let b = has_room p r && in_time c.checked p r in
    let Counts =
      λ (x : Receiver × List Package). x.0.rcvd_count ≡ r.rcvd_count + (if a && b then 1 else 0) in
    if-ind Counts a _ _
      (λ ha.
        if-ind Counts b _ _ (λ hb. both a b r.rcvd_count ha hb)
          (λ hb. not_second a b r.rcvd_count hb))
      (λ ha.
        if-ind Counts (p.kind ==ℤ pos 1) _ _ (λ _. not_first a b r.rcvd_count ha)
          (λ _. not_first a b r.rcvd_count ha))

due-Moves :
    (now : Timeval) (r : Receiver) (y : Receiver × List StreamPkt)
    → deliver_due now r ≡ some y
    → y.0.rcvd_count ≡ r.rcvd_count
unfolding deliver_due
due-Moves now r y e = (subst (Moves r) e (deliver-Moves (deliver_fuel r) now (r.c_ack + 1) r)).0

module _ {ℓ} {W : Type ℓ} ⦃d : Double W⦄ where
  abbrev pub hear :
      Brings → Monitor W → Option (Receiver × List StreamPkt) → Option (Receiver × Monitor W)
  hear e m none = none
  hear none m (some (r, out)) = some (r, on_silence m)
  hear (some (started, c, p)) m (some (r, out)) = some ((receive c p r).0, watch started c p r m)

  abbrev pub next :
      (Receiver → Monitor W → Option (Receiver × Monitor W))
      → Option (Receiver × Monitor W)
      → Option (Receiver × Monitor W)
  next k none = none
  next k (some (r, m)) = k r m

  unfoldable pub loop :
      List (Timeval × Brings) → Receiver → Monitor W → Option (Receiver × Monitor W)
  loop [] r m = some (r, m)
  loop ((now, e) ∷ es) r m = next (loop es) (hear e m (deliver_due now r))

  -- The delay of a packet, from its last transmission.
  abbrev pub delay : Clocks → Package → W
  delay c p = oneway c.now (if p.kind ==ℤ pos 0 then p.send_ts else p.n_send_ts)

  -- The delays of the packets that a run accepts, in order.
  abbrev pub heard : Brings → (Receiver → List W) → Option (Receiver × List StreamPkt) → List W
  heard e k none = []
  heard none k (some (r, out)) = k r
  heard (some (started, c, p)) k (some (r, out)) =
      let rest = k (receive c p r).0 in if takes c p r then delay c p ∷ rest else rest

  abbrev pub accepted : List (Timeval × Brings) → Receiver → List W
  accepted [] r = []
  accepted ((now, e) ∷ es) r = heard e (accepted es) (deliver_due now r)

  -- The same delays.
  abbrev pub Same : Monitor W → Monitor W → Type ℓ
  Same a b = (a.max_oneway ≡ b.max_oneway) × (a.min_oneway ≡ b.min_oneway)

  note-Same : (x : W) (n : ℕ) (a b : Monitor W) → Same a b → Same (note x n a) (note x n b)
  unfolding note
  note-Same x n a b (big, small) = (ap (larger (n == 1) x) big, ap (smaller (n == 1) x) small)

  notes-Same :
      (xs : List W) (n : ℕ) (a b : Monitor W) → Same a b → Same (notes xs n a) (notes xs n b)
  unfolding notes
  notes-Same [] n a b s = s
  notes-Same (x ∷ xs) n a b s =
      notes-Same xs (n + 1) (note x n a) (note x n b) (note-Same x n a b s)

  on_accepted-Same :
      (started : Timeval) (c : Clocks) (p : Package) (n : ℕ) (m : Monitor W)
      → Same (on_accepted started c.now p n m) (note (delay c p) n m)
  unfolding on_accepted note
  on_accepted-Same started c p n m = (refl, refl)

  Same-trans : (a b c : Monitor W) → Same a b → Same b c → Same a c
  Same-trans a b c s t = (s.0 ∙ t.0, s.1 ∙ t.1)

  watch-Same :
      (started : Timeval) (c : Clocks) (p : Package) (r : Receiver) (m : Monitor W)
      → takes c p r ≡ true
      → Same (watch started c p r m) (note (delay c p) r.rcvd_count m)
  unfolding watch
  watch-Same started c p r m h = rw h (on_accepted-Same started c p r.rcvd_count m)

  -- What a run comes to, with the delays that it accepts.
  abbrev pub Comes : Receiver → Monitor W → List W → Option (Receiver × Monitor W) → Type ℓ
  Comes r m xs o =
      (x : Receiver × Monitor W) × (o ≡ some x)
      × (x.0.rcvd_count ≡ r.rcvd_count + length xs)
      × Same x.1 (notes xs r.rcvd_count m)

  watch-leaves :
      (started : Timeval) (c : Clocks) (p : Package) (r : Receiver) (m : Monitor W)
      → takes c p r ≡ false
      → Same (watch started c p r m) m
  unfolding watch
  watch-leaves started c p r m h = rw h (refl, refl)

  notes-after :
      (rest : List W) (n2 n : ℕ) (m2 m t : Monitor W)
      → n2 ≡ n
      → Same m2 m
      → Same t (notes rest n2 m2)
      → Same t (notes rest n m)
  notes-after rest n2 n m2 m t e s same =
      Same-trans t (notes rest n2 m2) (notes rest n m) same
        (subst (λ k. Same (notes rest n2 m2) (notes rest k m)) e (notes-Same rest n2 m2 m s))

  -- A packet in front, as it is taken or not.
  Comes-heard :
      (started : Timeval) (c : Clocks) (p : Package) (r : Receiver) (m : Monitor W) (rest : List W)
      (o : Option (Receiver × Monitor W))
      → Comes (receive c p r).0 (watch started c p r m) rest o
      → Comes r m (if takes c p r then delay c p ∷ rest else rest) o
  unfolding notes
  Comes-heard started c p r m rest o (x, e, counted, same) =
      let n = (receive c p r).0.rcvd_count in
      elim (Bool-cases (takes c p r)) [
        | inl took ↦
            let one : n ≡ r.rcvd_count + 1 = rcvd_count-receive c p r ∙ rw took refl in
            rw took (
              x,
              e,
              omega (arith, counted, one),
              notes-after rest n (r.rcvd_count + 1) (watch started c p r m)
                  (note (delay c p) r.rcvd_count m) x.1 one (watch-Same started c p r m took) same,
            )
        | inr left ↦
            let none_more : n ≡ r.rcvd_count = rcvd_count-receive c p r ∙ rw left (omega arith) in
            rw left (
              x,
              e,
              omega (arith, counted, none_more),
              notes-after rest n r.rcvd_count (watch started c p r m) m x.1 none_more
                  (watch-leaves started c p r m left) same,
            )
      ]

  on_silence-Same : (m : Monitor W) → Same (on_silence m) m
  unfolding on_silence
  on_silence-Same m = (refl, refl)

  -- A round behind its delivery, from what the rounds behind it come to.
  heard-Comes :
      (es : List (Timeval × Brings)) (e : Brings) (r : Receiver) (m : Monitor W)
      (y : Receiver × List StreamPkt)
      → y.0.rcvd_count ≡ r.rcvd_count
      → Inv y.0
      → ((t : Receiver) (n : Monitor W) → Inv t → Comes t n (accepted es t) (loop es t n))
      → Comes r m (heard e (accepted es) (some y)) (next (loop es) (hear e m (some y)))
  heard-Comes es none r m y same_count w ih =
      let (x, e, counted, same) = ih y.0 (on_silence m) w in
      (
        x,
        e,
        omega (arith, counted, same_count),
        notes-after (accepted es y.0) y.0.rcvd_count r.rcvd_count (on_silence m) m x.1 same_count
            (on_silence-Same m) same,
      )
  heard-Comes es (some (started, c, p)) r m y same_count w ih =
      let later = ih (receive c p y.0).0 (watch started c p y.0 m) (receive-Inv c p y.0 w) in
      let (x, e, counted, same) =
        Comes-heard started c p y.0 m (accepted es (receive c p y.0).0) _ later in
      (
        x,
        e,
        omega (arith, counted, same_count),
        notes-after (heard (some (started, c, p)) (accepted es) (some y)) y.0.rcvd_count
            r.rcvd_count m m x.1 same_count (refl, refl) same,
      )

  pub loop-Comes :
      (es : List (Timeval × Brings)) (r : Receiver) (m : Monitor W)
      → Inv r
      → Comes r m (accepted es r) (loop es r m)
  unfolding loop notes
  loop-Comes [] r m v = ((r, m), refl, omega arith, (refl, refl))
  loop-Comes ((now, e) ∷ es) r m v =
      let (y, delivered, w, d1, d2) = deliver_due_lem now r v in
      subst (λ o. Comes r m (heard e (accepted es) o) (next (loop es) (hear e m o))) (sym delivered)
        (heard-Comes es e r m y (due-Moves now r y delivered) w (loop-Comes es))
