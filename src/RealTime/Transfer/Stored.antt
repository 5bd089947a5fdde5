-- ===== src/RealTime/Transfer/Stored.antt =====
-- p2/source/rt_rcv.c: if the data that arrives is right, what the window holds and what is handed over is
-- right too.
use cs2520_2021spring.Common.{
  ◌++◌, ℕ, ◌%◌, ◌≡◌, sym, subst, arith, ◌&&◌, if-ind, dec_eq, inl, inr, some, List, [], ◌∷◌, get_or,
  set, All, get_or-set_keeps, get_or-set_self, get_or-set_ne, ◌∙◌,
}
use cs2520_2021spring.Common.Int.{pos, pos_part, ◌==ℤ◌}
use cs2520_2021spring.Timeval.{Timeval}
use cs2520_2021spring.RealTime.Packet.{Package, StreamPkt}
use cs2520_2021spring.RealTime.Receiver.{
  Receiver, Clocks, blank, deliver_due, has_room, in_time, store, on_data, on_ackack, receive,
}
use cs2520_2021spring.RealTime.Receiver.Window.{Inv, slot_in_range}
use cs2520_2021spring.RealTime.Receiver.Handed.{deliver_due-Frees}
use cs2520_2021spring.RealTime.Receiver.Deliver.{Delivered}
use cs2520_2021spring.RealTime.Transfer.Contents.{Right-append, Right, Faithful, Carried, is_data}

-- Every packet that is marked as buffered is right.
abbrev pub Stored : List (List ℕ) → Receiver → Type 0
Stored given r = (i : ℕ) → get_or r.buffer i 0 ≡ 1 → Faithful given (get_or r.window i blank)

-- A packet that went to the application.
abbrev pub Honest : List (List ℕ) → StreamPkt → Type 0
Honest given p = Right given p.seq p.content

pub deliver_due-Stored :
    (given : List (List ℕ)) (now : Timeval) (r : Receiver) (x : Receiver × List StreamPkt)
    → Stored given r
    → deliver_due now r ≡ some x
    → Stored given x.0
unfolding deliver_due
deliver_due-Stored given now r x stored e =
    let f = deliver_due-Frees now r x e in
    λ i h. subst (λ w. Faithful given (get_or w i blank)) (sym f.0) (stored i (f.1 i h))

pub Delivered-Honest :
    (given : List (List ℕ)) (now : Timeval) (r : Receiver) (lo : ℕ) (ps : List StreamPkt) (hi : ℕ)
    → Stored given r
    → Delivered now r lo ps hi
    → All (Honest given) ps
Delivered-Honest given now r lo [] hi stored d = tt
Delivered-Honest given now r lo (p ∷ ps) hi stored (n, a, same, b, c, marked, d) = (
  subst (Honest given) (sym same) (stored (n % r.size) marked),
  Delivered-Honest given now r n ps hi stored d,
)

store-Stored :
    (given : List (List ℕ)) (c : Clocks) (p : Package) (r : Receiver)
    → Inv r
    → Faithful given p
    → Stored given r
    → Stored given (store c p r)
unfolding store
store-Stored given c p r v right stored i h =
    let k = pos_part p.seq % r.size in
    elim (dec_eq k i) [
      | inl q ↦
          subst
            (λ j.
              Faithful given
                (get_or (set r.window k (record p { receive_ts1 = c.received })) j blank))
            q
            (subst (Faithful given)
              (sym (
                get_or-set_self r.window k (record p { receive_ts1 = c.received }) blank
                  (omega (arith, slot_in_range (pos_part p.seq) r v, v.buffer_len, v.window_len))))
              right)
      | inr q ↦
          get_or-set_keeps (Faithful given) r.window k i (record p { receive_ts1 = c.received })
            blank right (stored i (sym (get_or-set_ne r.buffer k i 1 0 q) ∙ h))
    ]

pub receive-Stored :
    (given : List (List ℕ)) (c : Clocks) (p : Package) (r : Receiver)
    → Inv r
    → Carried given p
    → Stored given r
    → Stored given (receive c p r).0
unfolding receive on_data on_ackack
receive-Stored given c p r v right stored =
    if-ind (λ (x : Receiver × List Package). Stored given x.0) (is_data p) _ _
      (λ data_kind.
        if-ind (λ (x : Receiver × List Package). Stored given x.0)
          (has_room p r && in_time c.checked p r) _ _
          (λ _. store-Stored given c p r v (right data_kind) stored) (λ _. stored))
      (λ _.
        if-ind (λ (x : Receiver × List Package). Stored given x.0) (p.kind ==ℤ pos 1) _ _
          (λ _. stored) (λ _. stored))

pub Stored-append :
    (given : List (List ℕ)) (x : List ℕ) (r : Receiver)
    → Stored given r
    → Stored (given ++ x ∷ []) r
Stored-append given x r stored i h = Right-append given x _ _ (stored i h)
