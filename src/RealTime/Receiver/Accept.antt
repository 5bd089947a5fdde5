-- ===== src/RealTime/Receiver/Accept.antt =====
-- p2/source/rt_rcv.c: what a packet from the sender changes, and the invariant over every round.
use cs2520_2021spring.Common.{
  ◌++◌, ℕ, ◌+◌, ◌%◌, ◌≤◌, ◌<◌, ◌≡◌, refl, sym, ◌∙◌, ap, arith, true, ◌&&◌, ◌||◌, if-ind, dec_eq,
  inl, inr, Option, none, some, List, [], ◌∷◌, length, get_or, set, length-set, sum-set, set-le,
  get_or-set_self, get_or-set_ne, length-replicate, sum-replicate, get_or-replicate,
}
use cs2520_2021spring.Common.Int.{pos, pos_part, ◌==ℤ◌}
use cs2520_2021spring.Timeval.{Timeval}
use cs2520_2021spring.RealTime.Packet.{Package, StreamPkt}
use cs2520_2021spring.RealTime.Receiver.{
  prepend_all, and_then, run, Receiver, Clocks, slot, blank, init, size_of, has_room, in_time,
  store, on_data, on_ackack, receive, round,
}
use cs2520_2021spring.RealTime.Receiver.Window.{Inv, same_number, slot_in_range}
use cs2520_2021spring.RealTime.Receiver.Deliver.{deliver_due_lem, Delivered}

store-Inv :
    (c : Clocks) (p : Package) (r : Receiver) → Inv r → has_room p r ≡ true → Inv (store c p r)
unfolding has_room store
store-Inv c p r v room =
    let n = pos_part p.seq in
    let e : p.seq ≡ pos n = ground arith in
    let lo : r.c_ack + 1 ≤ n = ground arith in
    let hi : n < r.c_ack + 1 + r.size = ground arith in
    let free : slot r n ≡ 0 = ground arith in
    record {
      nonempty = v.nonempty;
      buffer_len = length-set r.buffer _ 1 ∙ v.buffer_len;
      window_len = length-set r.window _ _ ∙ v.window_len;
      counted =
          omega (arith, sum-set r.buffer (n % r.size) 1 (slot_in_range n r v), v.counted, free);
      bits = λ i. set-le r.buffer (n % r.size) i 1 1 (omega arith) (v.bits i);
      holds = λ j lo' hi' full. elim (dec_eq (n % r.size) (j % r.size)) [
        | inl q ↦
            ap (λ t. t.seq)
              (ap
                  (λ t.
                    get_or (set r.window (n % r.size) (record p { receive_ts1 = c.received })) t
                      blank)
                  (sym q)
                ∙ get_or-set_self r.window (n % r.size) (record p { receive_ts1 = c.received })
                    blank (omega (arith, slot_in_range n r v, v.buffer_len, v.window_len)))
            ∙ e
            ∙ ap pos (same_number r.size (r.c_ack + 1) n j lo hi lo' hi' q)
        | inr q ↦
            ap (λ t. t.seq) (get_or-set_ne r.window (n % r.size) (j % r.size) _ blank q)
            ∙ v.holds j lo' hi'
                (sym (get_or-set_ne r.buffer (n % r.size) (j % r.size) 1 0 q) ∙ full)
      ];
    }

on_data-Inv : (c : Clocks) (p : Package) (r : Receiver) → Inv r → Inv (on_data c p r).0
unfolding on_data
on_data-Inv c p r v =
    if-ind (λ (x : Receiver × List Package). Inv x.0) (has_room p r && in_time c.checked p r) _ _
      (λ t.
        let s = store-Inv c p r v (ground arith) in
        record {
          nonempty = s.nonempty;
          buffer_len = s.buffer_len;
          window_len = s.window_len;
          counted = s.counted;
          bits = s.bits;
          holds = s.holds;
        })
      (λ f. v)

pub receive-Inv : (c : Clocks) (p : Package) (r : Receiver) → Inv r → Inv (receive c p r).0
unfolding receive on_ackack
receive-Inv c p r v =
    if-ind (λ (x : Receiver × List Package). Inv x.0) (p.kind ==ℤ pos 0 || p.kind ==ℤ pos 6) _ _
      (λ _. on_data-Inv c p r v)
      (λ _.
        if-ind (λ (x : Receiver × List Package). Inv x.0) (p.kind ==ℤ pos 1) _ _
          (λ _. record {
            nonempty = v.nonempty;
            buffer_len = v.buffer_len;
            window_len = v.window_len;
            counted = v.counted;
            bits = v.bits;
            holds = v.holds;
          })
          (λ _. v))

pub c_ack-receive : (c : Clocks) (p : Package) (r : Receiver) → (receive c p r).0.c_ack ≡ r.c_ack
unfolding receive on_data store on_ackack
c_ack-receive c p r = ground arith

-- The receiver starts with an empty window, of at least a hundred slots for every latency.
pub init-Inv :
    (ms : ℕ) (window : List Package) (echo : Package)
    → length window ≡ size_of ms
    → Inv (init ms window echo)
unfolding init
init-Inv ms window echo h = record {
  nonempty = positive ms;
  buffer_len = length-replicate {A = ℕ} (size_of ms) 0;
  window_len = h;
  counted = sym (sum-replicate (size_of ms));
  bits = λ i. omega (arith, get_or-replicate {A = ℕ} (size_of ms) i 0);
  holds =
      λ j _ _ e. absurd (omega (arith, get_or-replicate {A = ℕ} (size_of ms) (j % size_of ms) 0));
}
  where
    positive : (k : ℕ) → 0 < size_of k
    positive k = omega arith

-- A round of a receiver with a right window always returns, whatever it receives. It keeps the window
-- right, and what it hands over has growing numbers behind the old `C_ack`, up to the new one.
pub round-Inv :
    (now : Timeval) (arrival : Option (Clocks × Package)) (r : Receiver)
    → Inv r
    → (x : Receiver × List StreamPkt × List Package) × (round now arrival r ≡ some x)
      × Inv x.0
      × Delivered now r r.c_ack x.1 x.0.c_ack
unfolding round
round-Inv now none r v =
    let (x, e, w, d, stop) = deliver_due_lem now r v in ((x.0, x.1, []), rw e refl, w, d)
round-Inv now (some (c, p)) r v =
    let (x, e, w, d, stop) = deliver_due_lem now r v in
    (
      ((receive c p x.0).0, x.1, (receive c p x.0).1),
      rw e refl,
      receive-Inv c p x.0 w,
      rw (c_ack-receive c p x.0) d,
    )

-- Numbers that grow from `lo` on, up to the last, `hi`.
abbrev pub Increasing : ℕ → List StreamPkt → ℕ → Type 0
Increasing lo [] hi = lo ≡ hi
Increasing lo (p ∷ ps) hi = (n : ℕ) × (lo < n) × (p.seq ≡ pos n) × Increasing n ps hi

pub Delivered-Increasing :
    (now : Timeval) (r : Receiver) (lo : ℕ) (ps : List StreamPkt) (hi : ℕ)
    → Delivered now r lo ps hi
    → Increasing lo ps hi
Delivered-Increasing now r lo [] hi d = d
Delivered-Increasing now r lo (p ∷ ps) hi (n, a, b, e, due, m, d) =
    (n, a, e, Delivered-Increasing now r n ps hi d)

pub Increasing-append :
    (lo mid hi : ℕ) (ps qs : List StreamPkt)
    → Increasing lo ps mid
    → Increasing mid qs hi
    → Increasing lo (ps ++ qs) hi
Increasing-append lo mid hi [] qs p q = rw p q
Increasing-append lo mid hi (x ∷ ps) qs (n, a, e, p) q =
    (n, a, e, Increasing-append n mid hi ps qs p q)

run_lem :
    (es : List (Timeval × Option (Clocks × Package))) (r : Receiver)
    → Inv r
    → (x : Receiver × List StreamPkt) × (run es r ≡ some x)
      × Inv x.0
      × Increasing r.c_ack x.1 x.0.c_ack
unfolding run
run_lem [] r v = ((r, []), refl, v, refl)
run_lem ((now, arrival) ∷ es) r v =
    let (x, e, w, d) = round-Inv now arrival r v in
    let (y, f, u, g) = run_lem es x.0 w in
    (
      (y.0, x.1 ++ y.1),
      ap (and_then (run es)) e ∙ ap (prepend_all x.1) f,
      u,
      Increasing-append r.c_ack x.0.c_ack y.0.c_ack x.1 y.1
          (Delivered-Increasing now r r.c_ack x.1 x.0.c_ack d) g,
    )

-- From the start on, with a window array of the right size, whatever arrives and at whatever times,
-- every round returns, and the packets that reach the application have growing numbers from 1 on, up
-- to `C_ack`: none comes twice or late.
pub run_ordered :
    (ms : ℕ) (window : List Package) (echo : Package)
    (es : List (Timeval × Option (Clocks × Package)))
    → length window ≡ size_of ms
    → (x : Receiver × List StreamPkt) × (run es (init ms window echo) ≡ some x)
      × Increasing 0 x.1 x.0.c_ack
unfolding init
run_ordered ms window echo es h =
    let (x, e, v, g) = run_lem es (init ms window echo) (init-Inv ms window echo h) in (x, e, g)
