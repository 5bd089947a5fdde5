-- ===== src/RealTime/Receiver/Loss.antt =====
-- p2/source/rt_rcv.c: the number of packets lost that its reports print.
use cs2520_2021spring.Common.{
  some_eq, ℕ, zero, suc, ◌+◌, ◌-◌, ◌≤◌, ◌<◌, ◌≡◌, refl, ap, sym, ◌∙◌, arith, ltb, ◌&&◌, ◌||◌, ◌==◌,
  if-ind, Option, none, some, List, [], ◌∷◌, length, length-append, subst,
}
use cs2520_2021spring.Common.Int.{ℤ, pos, ◌-ℤ◌, ◌==ℤ◌, pos-sub}
use cs2520_2021spring.Timeval.{Timeval}
use cs2520_2021spring.RealTime.Packet.{Package, StreamPkt}
use cs2520_2021spring.RealTime.Receiver.{
  Receiver, Clocks, slot, held, stream, hand_over, is_due, prepend, prepend_all, and_then, deliver,
  deliver_due, deliver_fuel, has_room, in_time, store, on_data, on_ackack, receive, react, round,
  run, init, size_of,
}
use cs2520_2021spring.RealTime.Receiver.Window.{Inv}
use cs2520_2021spring.RealTime.Receiver.Accept.{Increasing, round-Inv, run_ordered, init-Inv}

-- `loss = C_ack-(rcvd_count-buffersize)`
unfoldable pub loss : Receiver → ℤ
loss r = pos r.c_ack -ℤ (pos r.rcvd_count -ℤ pos r.buffersize)

-- What was accepted and is not held any more was handed over.
abbrev pub Moves : Receiver → Option (Receiver × List StreamPkt) → Type 0
Moves r none = Unit
Moves r (some x) = (x.0.rcvd_count ≡ r.rcvd_count) × (x.0.buffersize + length x.1 ≡ r.buffersize)

prepend-Moves :
    (i : ℕ) (p : StreamPkt) (r : Receiver) (o : Option (Receiver × List StreamPkt))
    → 0 < r.buffersize
    → Moves (hand_over i r) o
    → Moves r (prepend p o)
unfolding hand_over
prepend-Moves i p r none left m = tt
prepend-Moves i p r (some x) left m = (m.0, omega (arith, m.1, left))

pub deliver-Moves :
    (fuel : ℕ) (now : Timeval) (i : ℕ) (r : Receiver) → Moves r (deliver fuel now i r)
unfolding deliver
deliver-Moves zero now i r = tt
deliver-Moves (suc fuel) now i r =
    if-ind (Moves r) (ltb i (r.c_ack + 1 + r.size) && ltb 0 r.buffersize) _ _
      (λ more.
        if-ind (Moves r) (slot r i == 0) _ _ (λ _. deliver-Moves fuel now (i + 1) r)
          (λ _.
            if-ind (Moves r) (is_due now r (held r i)) _ _
              (λ _.
                prepend-Moves i (stream now (held r i)) r _ (ground (arith, more))
                  (deliver-Moves fuel now (i + 1) (hand_over i r)))
              (λ _. (refl, omega arith))))
      (λ _. (refl, omega arith))

receive-Moves :
    (c : Clocks) (p : Package) (r : Receiver)
    → let t = (receive c p r).0 in t.rcvd_count + r.buffersize ≡ r.rcvd_count + t.buffersize
unfolding receive on_data on_ackack store
receive-Moves c p r =
    let Same = λ (x : Receiver × List Package).
      x.0.rcvd_count + r.buffersize ≡ r.rcvd_count + x.0.buffersize in
    if-ind Same (p.kind ==ℤ pos 0 || p.kind ==ℤ pos 6) _ _
      (λ _. if-ind Same (has_room p r && in_time c.checked p r) _ _ (λ _. omega arith) (λ _. refl))
      (λ _. if-ind Same (p.kind ==ℤ pos 1) _ _ (λ _. refl) (λ _. refl))

-- All that was accepted is held or was handed over.
abbrev Balanced : ℕ → Receiver → Type 0
Balanced n r = r.rcvd_count ≡ r.buffersize + n

round-Balanced :
    (now : Timeval) (arrival : Option (Clocks × Package)) (r : Receiver) (n : ℕ)
    (x : Receiver × List StreamPkt × List Package)
    → Balanced n r
    → round now arrival r ≡ some x
    → Balanced (n + length x.1) x.0
unfolding round deliver_due
round-Balanced now arrival r n x b e =
    reacted arrival (deliver (deliver_fuel r) now (r.c_ack + 1) r)
      (deliver-Moves (deliver_fuel r) now (r.c_ack + 1) r) e
  where
    reacted :
        (arrival : Option (Clocks × Package)) (o : Option (Receiver × List StreamPkt))
        → Moves r o
        → react arrival o ≡ some x
        → Balanced (n + length x.1) x.0
    reacted none none m e = cc
    reacted (some a) none m e = cc
    reacted none (some (y, out)) m e =
        subst (λ (t : Receiver × List StreamPkt × List Package). Balanced (n + length t.1) t.0)
          (some_eq e) (omega (arith, b, m))
    reacted (some (c, p)) (some (y, out)) m e =
        subst (λ (t : Receiver × List StreamPkt × List Package). Balanced (n + length t.1) t.0)
          (some_eq e) (omega (arith, b, m, receive-Moves c p y))

Increasing-length : (lo hi : ℕ) (ps : List StreamPkt) → Increasing lo ps hi → lo + length ps ≤ hi
Increasing-length lo hi [] h = omega (arith, h)
Increasing-length lo hi (p ∷ ps) (n, less, e, h) = omega (arith, less, Increasing-length n hi ps h)

run-Balanced :
    (es : List (Timeval × Option (Clocks × Package))) (r : Receiver) (n : ℕ)
    (x : Receiver × List StreamPkt)
    → Inv r
    → Balanced n r
    → run es r ≡ some x
    → Balanced (n + length x.1) x.0
unfolding run
run-Balanced [] r n x v b e =
    subst (λ (t : Receiver × List StreamPkt). Balanced (n + length t.1) t.0) (some_eq e)
      (omega (arith, b))
run-Balanced ((now, arrival) ∷ es) r n x v b e =
    let (y, p, w, d) = round-Inv now arrival r v in
    rest (run es y.0) y.1 refl (sym (ap (and_then (run es)) p) ∙ e)
      (λ z q. run-Balanced es y.0 (n + length y.1) z w (round-Balanced now arrival r n y b p) q)
  where
    rest :
        (o : Option (Receiver × List StreamPkt)) (out : List StreamPkt)
        {q : Option (Receiver × List StreamPkt)}
        → q ≡ o
        → prepend_all out o ≡ some x
        → ((z : Receiver × List StreamPkt)
            → q ≡ some z
            → Balanced (n + length out + length z.1) z.0)
        → Balanced (n + length x.1) x.0
    rest none out same e ih = cc
    rest (some z) out same e ih =
        subst (λ (t : Receiver × List StreamPkt). Balanced (n + length t.1) t.0) (some_eq e)
          (omega (arith, ih z same, length-append {0} out z.1))

-- From the start, with a window array of the right size, whatever arrives: the number of lost packets that
-- a report prints is how many of the numbers up to `C_ack` were not handed over, and it is not negative.
pub loss_lem :
    (ms : ℕ) (window : List Package) (echo : Package)
    (es : List (Timeval × Option (Clocks × Package)))
    → length window ≡ size_of ms
    → (x : Receiver × List StreamPkt) × (run es (init ms window echo) ≡ some x)
      × (length x.1 ≤ x.0.c_ack)
      × (loss x.0 ≡ pos (x.0.c_ack - length x.1))
unfolding loss init
loss_lem ms window echo es h =
    let (x, e, up) = run_ordered ms window echo es h in
    let b = run-Balanced es (init ms window echo) 0 x (init-Inv ms window echo h) refl e in
    let le = Increasing-length 0 x.0.c_ack x.1 up in
    (
      x,
      e,
      omega (arith, le),
      ap (λ k. pos x.0.c_ack -ℤ k) (pos-sub x.0.rcvd_count x.0.buffersize (omega (arith, b)))
          ∙ pos-sub x.0.c_ack (x.0.rcvd_count - x.0.buffersize) (omega (arith, b, le))
          ∙ ap pos (omega (arith, b)),
    )
