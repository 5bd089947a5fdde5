-- ===== src/FileCopy/Receiver/Delivery.antt =====
-- p1/source/rcv.c: the file that the receiver writes, over every run of its main loop.
use cs2520_2021spring.Common.{
  ap₂, ◌++◌, ◌⊎◌, sym, subst, ◌∙◌, ℕ, zero, suc, ◌+◌, ◌*◌, ◌%◌, ◌<◌, ◌≡◌, refl, Bool, true, false,
  Bool-cases, inl, inr, Option, none, some, Option-cases, List, [], ◌∷◌, length, replicate, arith,
  length-replicate, sum-replicate, get_or-replicate,
}
use cs2520_2021spring.Common.Int.{pos, negsuc, ◌==ℤ◌}
use cs2520_2021spring.Common.Bytes.{overwrite, cstr}
use cs2520_2021spring.Timeval.{Timeval}
use cs2520_2021spring.FileCopy.Message.{Header, Message, Datagram, Addr, same_addr, tmb, chunk_len}
use cs2520_2021spring.FileCopy.Receiver.{
  direct, timer_request, arrive, timer_due, Receiver, Out, Round, init, check_timer, start_session,
  decline, on_data, receive, on_arrival, round, run, after,
}
use cs2520_2021spring.FileCopy.Receiver.Slots.{Written, Slots, Inv}
use cs2520_2021spring.FileCopy.Receiver.Invariant.{on_data-Inv}

pub state_of {ℓ κ} :
    {A : Type ℓ} {B : Type κ} {a t : A} {b u : B}
    → ◌≡◌ {A = Option (A × B)} (some (a, b)) (some (t, u))
    → a ≡ t
state_of e = cc

pub after-eq-some :
    (out : List Out) (x : Option (Receiver × List Out)) {t : Receiver} {all : List Out}
    → after out x ≡ some (t, all)
    → (m : List Out) × (x ≡ some (t, m))
after-eq-some out none h = cc
after-eq-some out (some (r, more)) {t} h = (more, rw (state_of h))

none_not_some : {x : Receiver × List Out} → none ≡ some x → ⊥
none_not_some h = cc

-- A packet starts a session, or is the current sender's data, or leaves all but the address of the
-- last sender, the receive buffer, the reply's header and the session flag as they were.
receive_cases :
    (opened : Bool) (from : Addr) (d : Datagram) (r : Receiver)
    → (receive opened from d r ≡ start_session opened from (arrive from d r))
      ⊎ ((same_addr r.current from ≡ true)
            × (receive opened from d r ≡ some (on_data (arrive from d r)))
          ⊎ ((x : Bool × Header × List Out) × (receive opened from d r
                ≡ some (record (arrive from d r) { has_sender = x.0; echo = x.1 }, x.2))))
unfolding receive decline
receive_cases opened from d r = elim (Bool-cases r.has_sender) [
  | inl busy ↦ elim (Bool-cases (same_addr r.current from)) [
    | inl same ↦ elim (Bool-cases (d.hdr.seq ==ℤ negsuc 0)) [
      | inl over ↦ inr (inr ((false, r.echo, []), ground arith))
      | inr more ↦ inr (inl (same, ground arith))
    ]
    | inr other ↦ inr (
        inr (
          (
            true,
            record r.echo { cack = negsuc 0 },
            direct from (record r.echo { cack = negsuc 0 }) ∷ [],
          ),
          ground arith,
        ))
  ]
  | inr idle ↦ elim (Bool-cases (d.hdr.seq ==ℤ pos 0)) [
    | inl first ↦ inl (ground arith)
    | inr stray ↦ inr (inr ((false, r.echo, []), ground arith))
  ]
]

check_timer-frame :
    (now sent : Timeval) (r : Receiver)
    → (x : Header × Timeval) × ((check_timer now sent r).0
        ≡ record r { echo = x.0; ack_timeout = x.1 })
unfolding check_timer
check_timer-frame now sent r = elim (Bool-cases (timer_due now r)) [
  | inl due ↦ ((timer_request r, sent), rw due refl)
  | inr idle ↦ ((r.echo, r.ack_timeout), rw idle refl)
]

-- Empty slots.
empty-Slots :
    (Text : ℕ → List ℕ → Type 0) (first : ℕ) (window : List Message)
    → length window ≡ 100
    → Slots Text first 0 (replicate 100 0) window
empty-Slots Text first window h = record {
  buffer_len = length-replicate {A = ℕ} 100 0;
  window_len = h;
  counted = omega (arith, sum-replicate 100);
  bits = λ i. omega (arith, get_or-replicate {A = ℕ} 100 i 0);
  held = λ j _ _ e. absurd (omega (arith, get_or-replicate {A = ℕ} 100 (j % 100) 0));
}

pub init-Inv :
    (Text : ℕ → List ℕ → Type 0) (mess : Message) (echo : Header) (window : List Message)
    → length window ≡ 100
    → Inv Text (init mess echo window)
unfolding init
init-Inv Text mess echo window h = record {
  slots = empty-Slots Text 1 window h;
  expected_free = get_or-replicate 100 1 0;
  written = refl;
  accounted = omega arith;
}

module _ (Text : ℕ → List ℕ → Type 0) where
  -- What the network may bring: a packet of the current sender lies within that sender's window, and
  -- leaves its text in the receive buffer.
  abbrev pub Conforms : Receiver → Option (Addr × Datagram) → Type 0
  Conforms r none = Unit
  Conforms r (some (from, d)) =
      same_addr r.current from ≡ true
      → (n : ℕ) → d.hdr.seq ≡ pos (suc n)
      → (n < r.c_ack + 100) × (Text (suc n) (cstr (overwrite r.mess.text d.payload)))

  abbrev pub AllConform : List Round → Receiver → Type 0
  AllConform [] r = Unit
  AllConform (e ∷ es) r =
      Conforms r e.arrival
      × ((t : Receiver) (out : List Out) → round e r ≡ some (t, out) → AllConform es t)

  same-Inv :
      (r s : Receiver)
      → Inv Text r
      → s.c_ack ≡ r.c_ack
      → s.buffersize ≡ r.buffersize
      → s.buffer ≡ r.buffer
      → s.window ≡ r.window
      → s.file ≡ r.file
      → s.totalbytes ≡ r.totalbytes
      → s.i_tmb ≡ r.i_tmb
      → Inv Text s
  same-Inv r s v c z b w f t i = record {
    slots = rw (c, z, b, w) v.slots;
    expected_free = rw (c, b) v.expected_free;
    written = rw (f, c) v.written;
    accounted = rw (t, i, c) v.accounted;
  }

  pub start_session-Inv :
      (opened : Bool) (from : Addr) (r t : Receiver) (out : List Out)
      → length r.window ≡ 100
      → start_session opened from r ≡ some (t, out)
      → Inv Text t
  unfolding start_session
  start_session-Inv true from r t out h e = subst (Inv Text) (state_of e) (record {
    slots = empty-Slots Text 1 r.window h;
    expected_free = get_or-replicate 100 1 0;
    written = refl;
    accounted = omega arith;
  })
  start_session-Inv false from r t out h e = cc

  receive-Inv :
      (opened : Bool) (from : Addr) (d : Datagram) (r t : Receiver) (out : List Out)
      → Inv Text r
      → Conforms r (some (from, d))
      → receive opened from d r ≡ some (t, out)
      → Inv Text t
  receive-Inv opened from d r t out v good e = elim (receive_cases opened from d r) [
    | inl p ↦ start_session-Inv opened from (arrive from d r) t out v.slots.window_len (sym p ∙ e)
    | inr (inl (same, p)) ↦ subst (Inv Text) (state_of (sym p ∙ e)) (
        on_data-Inv Text (arrive from d r) (same-Inv r _ v refl refl refl refl refl refl refl)
          (good same))
    | inr (inr ((b, h, o), p)) ↦
        subst (Inv Text) (state_of (sym p ∙ e)) (same-Inv r _ v refl refl refl refl refl refl refl)
  ]

  on_arrival-Inv :
      (opened : Bool) (a : Option (Addr × Datagram)) (r t : Receiver) (out : List Out)
      → Inv Text r
      → Conforms r a
      → on_arrival opened a r ≡ some (t, out)
      → Inv Text t
  unfolding on_arrival
  on_arrival-Inv opened none r t out v good e = subst (Inv Text) (state_of e) v
  on_arrival-Inv opened (some (from, d)) r t out v good e =
      receive-Inv opened from d r t out v good e

  pub round-Inv :
      (e : Round) (r t : Receiver) (out : List Out)
      → Inv Text r
      → Conforms r e.arrival
      → round e r ≡ some (t, out)
      → Inv Text t
  unfolding round
  round-Inv e r t out v good h =
      let (m, g) = after-eq-some _ _ h in
      let (x, p) = check_timer-frame e.now e.sent r in
      on_arrival-Inv e.opened e.arrival (record r { echo = x.0; ack_timeout = x.1 }) t m
        (same-Inv r _ v refl refl refl refl refl refl refl) good
        (subst (λ s. on_arrival e.opened e.arrival s ≡ some (t, m)) p g)

  pub run-Inv :
      (es : List Round) (r t : Receiver) (out : List Out)
      → Inv Text r
      → AllConform es r
      → run es r ≡ some (t, out)
      → Inv Text t
  unfolding run
  run-Inv [] r t out v good h = subst (Inv Text) (state_of h) v
  run-Inv (e ∷ es) r t out v good h = elim (Option-cases (round e r)) [
    | inl stopped ↦ absurd (none_not_some (rw stopped at h))
    | inr ((s, o), p) ↦
        let (m, g) = after-eq-some o _ (rw p at h) in
        run-Inv es s t m (round-Inv e r s o v good.0 p) (good.1 s o p) g
  ]

-- The text of the packets 1 up to `n`.
abbrev pub chunks : (ℕ → List ℕ) → ℕ → List ℕ
chunks chunk zero = []
chunks chunk (suc n) = chunks chunk n ++ chunk (suc n)

-- The packet `n` has the text `chunk n`.
abbrev pub Is : (ℕ → List ℕ) → ℕ → List ℕ → Type 0
Is chunk n text = text ≡ chunk n

pub Written-chunks :
    (chunk : ℕ → List ℕ) (n : ℕ) (file : List ℕ) → Written (Is chunk) n file → file ≡ chunks chunk n
Written-chunks chunk zero file w = w
Written-chunks chunk (suc n) file (before, text, e, w, h) =
    e ∙ ap₂ (λ xs ys. xs ++ ys) (Written-chunks chunk n before w) h

-- From a receiver that has just started, with a window of 100 slots, over every run that does not stop
-- at `exit`, whatever the rounds bring, also other senders, early packets, repeated packets and new
-- sessions: if each packet of the current sender with a positive number has one up to `C_ack + 100`
-- and leaves its text in the receive buffer, then the file holds exactly the texts of the packets 1 to
-- `C_ack`, in order, and the byte counters stand for 1359 bytes a packet.
pub run_delivers :
    (chunk : ℕ → List ℕ) (mess : Message) (echo : Header) (window : List Message)
    → length window ≡ 100
    → (es : List Round) (t : Receiver) (out : List Out)
    → AllConform (Is chunk) es (init mess echo window)
    → run es (init mess echo window) ≡ some (t, out)
    → (t.file ≡ chunks chunk t.c_ack) × (t.totalbytes + tmb * t.i_tmb ≡ chunk_len * t.c_ack)
run_delivers chunk mess echo window h es t out good e =
    let v = run-Inv (Is chunk) es _ t out (init-Inv (Is chunk) mess echo window h) good e in
    (Written-chunks chunk t.c_ack t.file v.written, v.accounted)
