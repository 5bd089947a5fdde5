-- ===== src/RealTime/Transfer/Handing.antt =====
-- p2/source/rt_srv.c and p2/source/rt_rcv.c together: what the application gives can be handed over.
use cs2520_2021spring.Common.{
  ℕ, ◌+◌, ◌%◌, ◌≤◌, ◌<◌, ◌≡◌, refl, ap, sym, arith, ◌∙◌, true, if-ind, inl, inr, dec_eq, none, some,
  List, [], ◌∷◌, ◌++◌, map, length, get_or, set, get_or-set_self, append_assoc, ◌&&◌, ◌||◌,
}
use cs2520_2021spring.Common.Int.{◌≤ℤ◌, pos, negsuc, pos_part, ◌==ℤ◌, ltb_ℤ}
use cs2520_2021spring.Timeval.{Timeval, timeradd, cmp_time}
use cs2520_2021spring.Timeval.Laws.{Before}
use cs2520_2021spring.RealTime.Packet.{Package, StreamPkt}
use cs2520_2021spring.RealTime.Receiver
use cs2520_2021spring.RealTime.Receiver.{
  Receiver, blank, slot, held, stream, has_room, in_time, store, on_data, receive, deliver_due,
  round, react,
}
use cs2520_2021spring.RealTime.Receiver.Window
use cs2520_2021spring.RealTime.Receiver.Window.{slot_in_range}
use cs2520_2021spring.RealTime.Receiver.Deliver.{deliver_due_lem}
use cs2520_2021spring.RealTime.Receiver.Accept.{Delivered-Increasing, receive-Inv}
use cs2520_2021spring.RealTime.Receiver.Handed.{
  Delivered-le, Has, deliver_due-Frees, deliver_due-hands,
}
use cs2520_2021spring.RealTime.Server.{Server, AppPkt, on_app, data_pkt}
use cs2520_2021spring.RealTime.Transfer.{
  World, Step, app, arrive, wait, Reach, here, later, begin, sent, received, package_of,
}
use cs2520_2021spring.RealTime.Transfer.Contents.{on_app-Kept}
use cs2520_2021spring.RealTime.Transfer.Stored.{Stored, deliver_due-Stored, Delivered-Honest}
use cs2520_2021spring.RealTime.Transfer.Order.{Safe, Reach-Safe}
use cs2520_2021spring.RealTime.Transfer.Channel.{Connected, begin-Safe, handed-le}

-- The latest time at which a packet sent at `sent` is still taken: in the receiver's clock, with the
-- latency window.
abbrev pub deadline : Timeval → Receiver → Timeval
deadline sent r = timeradd (timeradd sent r.delta.value) r.latency_window

not_late : (a b : Timeval) → (Before a b → ⊥) → ltb_ℤ (negsuc 0) (cmp_time a b) ≡ true
unfolding cmp_time
not_late a b h = ground (arith, h)

meets_deadline :
    (now : Timeval) (p : Package) (r s : Receiver)
    → s.delta ≡ r.delta
    → s.latency_window ≡ r.latency_window
    → (Before (deadline p.send_ts r) now → ⊥)
    → in_time now p s ≡ true
unfolding in_time
meets_deadline now p r s d l h = rw (d, l) (not_late (deadline p.send_ts r) now h)

roomy :
    (p : Package) (n : ℕ) (r : Receiver)
    → p.seq ≡ pos n
    → r.c_ack < n
    → n < r.c_ack + 1 + r.size
    → slot r n ≡ 0
    → has_room p r ≡ true
unfolding has_room
roomy p n r e lo hi free = rw e (ground (arith, lo, hi, free))

-- A packet behind all that were given has a free slot.
free_slot :
    (given : List (List ℕ)) (n : ℕ) (r : Receiver)
    → Window.Inv r
    → Stored given r
    → length given < n
    → r.c_ack < n
    → n < r.c_ack + 1 + r.size
    → slot r n ≡ 0
free_slot given n r v stored new lo hi = elim (dec_eq (slot r n) 1) [
  | inl one ↦ absurd (
      omega (
        arith,
        new,
        (stored (n % r.size) one n (omega (arith, lo)) (v.holds n (omega (arith, lo)) hi one)).0,
      ))
  | inr other ↦ omega (arith, other, v.bits (n % r.size))
]

-- What a data packet leaves behind that has room and is in time.
record Kept (n : ℕ) (content : List ℕ) (r t : Receiver) : Type 0 where
  marked : slot t n ≡ 1
  number : (held t n).seq ≡ pos n
  body : (held t n).content ≡ content
  c_ack : t.c_ack ≡ r.c_ack
  size : t.size ≡ r.size

receive-Kept :
    (c : Receiver.Clocks) (p : Package) (n : ℕ) (r : Receiver)
    → Window.Inv r
    → p.kind ≡ pos 0
    → p.seq ≡ pos n
    → has_room p r ≡ true
    → in_time c.checked p r ≡ true
    → Kept n p.content r (receive c p r).0
unfolding receive on_data store
receive-Kept c p n r v kind number room in_t =
    let here_n : pos_part p.seq ≡ n = ap pos_part number in
    let q : Package = record p { receive_ts1 = c.received } in
    let slot_n : n % r.size < length r.buffer = slot_in_range n r v in
    let packet =
      ap (λ k. get_or (set r.window (k % r.size) q) (n % r.size) blank) here_n
      ∙ get_or-set_self r.window (n % r.size) q blank
          (omega (arith, slot_n, v.buffer_len, v.window_len)) in
    if-ind (λ (x : Receiver × List Package). Kept n p.content r x.0)
      (p.kind ==ℤ pos 0 || p.kind ==ℤ pos 6) _ _
      (λ _.
        if-ind (λ (x : Receiver × List Package). Kept n p.content r x.0)
          (has_room p r && in_time c.checked p r) _ _
          (λ _. record {
            marked =
                ap (λ k. get_or (set r.buffer (k % r.size) 1) (n % r.size) 0) here_n
                ∙ get_or-set_self r.buffer (n % r.size) 1 0 slot_n;
            number = ap (λ t. t.seq) packet ∙ number;
            body = ap (λ t. t.content) packet;
            c_ack = refl;
            size = refl;
          })
          (λ refused. absurd (ground (arith, room, in_t, refused))))
      (λ other. absurd (ground (arith, kind, other)))

Has-append : (ps qs : List StreamPkt) (p : StreamPkt) → Has qs p → Has (ps ++ qs) p
Has-append ps qs p (before, after, e) =
    (ps ++ before, after, ap (λ t. ps ++ t) e ∙ sym (append_assoc ps before (p ∷ after)))

-- The world once the data is sent, and once it has arrived.
abbrev pub given_to : Timeval → AppPkt → World → World
given_to now x w = record (sent (on_app now x w.server) w) { given = w.given ++ x.content ∷ [] }

-- Wherever the receiver is in its round, and whatever its clocks show: the data that has gone out at `now`
-- and arrives by the deadline is kept, and handed over in every round from some second on.
abbrev pub HandsOver : World → Timeval → AppPkt → Timeval → Receiver.Clocks → Type 0
HandsOver w now x t0 c =
    (y : Receiver × List StreamPkt × List Package) × (round t0 (some (c, data_pkt now x w.server))
        w.receiver
      ≡ some y)
    × Reach w (received y (given_to now x w))
    × (m : ℕ) × ((late : Timeval)
        → pos m ≤ℤ late.sec
        → (z : Receiver × List StreamPkt × List Package) × (round late none y.0 ≡ some z)
          × Reach w (received z (received y (given_to now x w)))
          × (p : StreamPkt) × Has z.1 p
          × (p.seq ≡ pos w.server.seq)
          × (p.content ≡ x.content)
          × (p.ts ≡ late))

-- From a state with the joint invariant.
hand_over_next :
    (w : World)
    → Safe w
    → w.server.seq ≤ w.receiver.c_ack + w.receiver.size
    → (now : Timeval) (x : AppPkt) (t0 : Timeval) (c : Receiver.Clocks)
    → (Before (deadline now w.receiver) c.checked → ⊥)
    → HandsOver w now x t0 c
unfolding round
hand_over_next w v space now x t0 c early =
    let n = w.server.seq in
    let r = w.receiver in
    let p = data_pkt now x w.server in
    let w1 = given_to now x w in
    let (a, b, next, out) = on_app-Kept now x w.server w.given v.counted v.kept in
    let split : w1.to_receiver ≡ w.to_receiver ++ p ∷ [] =
      ap (λ outs. w.to_receiver ++ map package_of outs) out in
    let (y, e, wy, d, stop) = deliver_due_lem t0 r v.window in
    let frees = deliver_due-Frees t0 r y e in
    let size = frees.2 in
    let stored = deliver_due-Stored w.given t0 r y v.stored e in
    let given : y.0.c_ack ≤ length w.given =
      handed-le w.given r.c_ack y.0.c_ack y.1
        (handed-le w.given 0 r.c_ack w.handed (omega arith) v.ordered v.honest)
        (Delivered-Increasing t0 r r.c_ack y.1 y.0.c_ack d)
        (Delivered-Honest w.given t0 r r.c_ack y.1 y.0.c_ack v.stored d) in
    let further = Delivered-le t0 r r.c_ack y.1 y.0.c_ack d in
    let lo : y.0.c_ack < n = omega (arith, given, v.counted) in
    let hi : n < y.0.c_ack + 1 + y.0.size = omega (arith, space, further, size) in
    let free = free_slot w.given n y.0 wy stored (omega (arith, v.counted)) lo hi in
    let soon = meets_deadline c.checked p r y.0 frees.3 frees.4 early in
    let k = receive-Kept c p n y.0 wy refl refl (roomy p n y.0 refl lo hi free) soon in
    let s = (receive c p y.0).0 in
    let taken : Receiver × List StreamPkt × List Package = (s, y.1, (receive c p y.0).1) in
    let second : Step w1 (received taken w1) =
      arrive t0 c w.to_receiver [] p taken split (ap (react (some (c, p))) e) in
    let reach = later (later here (app now x)) second in
    let (m, hands) = deliver_due-hands s (receive-Inv c p y.0 wy) in
    (
      taken,
      ap (react (some (c, p))) e,
      reach,
      m,
      λ late at.
          let (z, e2, has) =
            hands late n at (omega (arith, lo, k.c_ack)) (omega (arith, hi, k.c_ack, k.size))
              k.marked in
          (
            (z.0, z.1, []),
            ap (react none) e2,
            later reach (wait late (z.0, z.1, []) (ap (react none) e2)),
            stream late (held s n),
            has,
            k.number,
            k.body,
            refl,
          ),
    )

-- From every state that a connected server and receiver reach, if the server's fresh window is zeros,
-- and whatever was lost before: what the application gives next, if its number is at most the window's
-- size ahead of `C_ack`, goes out, and in whatever round it arrives, and whatever the clocks show, if
-- the clock of the arrival is not after its sending time plus the clock offset plus the latency
-- window, the round keeps it; and every next round from some second on hands it over, under its
-- number, with its content and with the time of that round.
pub can_hand_over :
    (server : Server) (receiver : Receiver) (w : World)
    → Connected server receiver
    → Reach (begin server receiver) w
    → w.server.seq ≤ w.receiver.c_ack + w.receiver.size
    → (now : Timeval) (x : AppPkt) (t0 : Timeval) (c : Receiver.Clocks)
    → (Before (deadline now w.receiver) c.checked → ⊥)
    → HandsOver w now x t0 c
can_hand_over server receiver w c reach space now x t0 clocks early =
    hand_over_next w (Reach-Safe (begin-Safe server receiver c) reach) space now x t0 clocks early
