-- ===== src/RealTime/Transfer/Order.antt =====
-- p2/source/rt_srv.c and p2/source/rt_rcv.c together: what is handed over is what was given, in order.
use cs2520_2021spring.Common.{
  some_eq, ℕ, ◌+◌, ◌≡◌, ap, sym, subst, arith, ◌∙◌, Option, none, some, List, [], ◌∷◌, ◌++◌, map,
  length, All, All-append, All-mono, All-map, All-middle, length-append,
}
use cs2520_2021spring.Timeval.{Timeval}
use cs2520_2021spring.RealTime.Packet.{Package, StreamPkt}
use cs2520_2021spring.RealTime.Receiver
use cs2520_2021spring.RealTime.Receiver.{
  Receiver, Connect, connected, on_answer, init, size_of, deliver_due, react, round, receive, blank,
}
use cs2520_2021spring.RealTime.Receiver.Window
use cs2520_2021spring.RealTime.Receiver.Deliver.{deliver_due_lem}
use cs2520_2021spring.RealTime.Receiver.Accept.{
  Increasing, Delivered-Increasing, Increasing-append, c_ack-receive, receive-Inv,
}
use cs2520_2021spring.RealTime.Server
use cs2520_2021spring.RealTime.Server.{Server, accept, slide_head}
use cs2520_2021spring.RealTime.Transfer.{
  World, Step, app, hear, slide, wait, arrive, Reach, here, later, received, package_of,
}
use cs2520_2021spring.RealTime.Transfer.Contents.{
  Kept, Carried, Slid, Right-append, on_app-Kept, on_network-Serves, slide_head-Slid,
}
use cs2520_2021spring.RealTime.Transfer.Stored.{
  Stored, Honest, deliver_due-Stored, Delivered-Honest, receive-Stored, Stored-append,
}

pub record Safe (w : World) : Type 0 where
  pub counted : w.server.seq ≡ length w.given + 1
  pub kept : Kept w.given w.server.window
  pub packets : All (Carried w.given) w.to_receiver
  pub window : Window.Inv w.receiver
  pub stored : Stored w.given w.receiver
  pub honest : All (Honest w.given) w.handed
  pub ordered : Increasing 0 w.handed w.receiver.c_ack

-- What a round of the receiver does, to a window that is right and holds right packets.
abbrev Took : List (List ℕ) → Receiver → Receiver × List StreamPkt × List Package → Type 0
Took given r x =
    Window.Inv x.0 × Stored given x.0 × All (Honest given) x.1 × Increasing r.c_ack x.1 x.0.c_ack

abbrev Brought : List (List ℕ) → Option (Receiver.Clocks × Package) → Type 0
Brought given none = Unit
Brought given (some a) = Carried given a.1

round-Took :
    (given : List (List ℕ)) (now : Timeval) (a : Option (Receiver.Clocks × Package)) (r : Receiver)
    (x : Receiver × List StreamPkt × List Package)
    → Window.Inv r
    → Stored given r
    → Brought given a
    → round now a r ≡ some x
    → Took given r x
unfolding round
round-Took given now none r x v stored right e =
    let (y, p, w, d, stop) = deliver_due_lem now r v in
    let same : (y.0, y.1, []) ≡ x = some_eq (sym (ap (react none) p) ∙ e) in
    subst (Took given r) same (
      w,
      deliver_due-Stored given now r y stored p,
      Delivered-Honest given now r r.c_ack y.1 y.0.c_ack stored d,
      Delivered-Increasing now r r.c_ack y.1 y.0.c_ack d,
    )
round-Took given now (some (c, p)) r x v stored right e =
    let (y, q, w, d, stop) = deliver_due_lem now r v in
    let same : ((receive c p y.0).0, y.1, (receive c p y.0).1) ≡ x =
      some_eq (sym (ap (react (some (c, p))) q) ∙ e) in
    subst (Took given r) same (
      receive-Inv c p y.0 w,
      receive-Stored given c p y.0 w right (deliver_due-Stored given now r y stored q),
      Delivered-Honest given now r r.c_ack y.1 y.0.c_ack stored d,
      subst (Increasing r.c_ack y.1) (sym (c_ack-receive c p y.0))
          (Delivered-Increasing now r r.c_ack y.1 y.0.c_ack d),
    )

received-Safe :
    (now : Timeval) (a : Option (Receiver.Clocks × Package)) (w : World)
    (x : Receiver × List StreamPkt × List Package)
    → Safe w
    → Brought w.given a
    → round now a w.receiver ≡ some x
    → Safe (received x w)
received-Safe now a w x v right e =
    let (window, stored, honest, ordered) =
      round-Took w.given now a w.receiver x v.window v.stored right e in
    record {
      counted = v.counted;
      kept = v.kept;
      packets = v.packets;
      window = window;
      stored = stored;
      honest = All-append (Honest w.given) w.handed x.1 v.honest honest;
      ordered = Increasing-append 0 w.receiver.c_ack x.0.c_ack w.handed x.1 v.ordered ordered;
    }

-- Every branch of the server's loop, whatever datagram it reads and from whomever, and every round of the
-- receiver's loop, with any packet that the server sent or none, keeps the joint invariant: the server
-- numbers the data as it is given, the data in its window, in the network, in the receiver's marked slots
-- and with the receiving application is under its number what was given under that number, and the numbers
-- handed over grow.
pub Step-Safe : {w t : World} → Step w t → Safe w → Safe t
Step-Safe {w} (app now x) v =
    let (kept, right, next, out) = on_app-Kept now x w.server w.given v.counted v.kept in
    let more : (q : Package) → Carried w.given q → Carried (w.given ++ x.content ∷ []) q =
      λ q h k. Right-append w.given x.content _ _ (h k) in
    let given = w.given ++ x.content ∷ [] in
    record {
      counted = omega (arith, next, v.counted, length-append {0} w.given (x.content ∷ []));
      kept = kept;
      packets =
          All-append (Carried given) w.to_receiver (map package_of (Server.on_app now x w.server).1)
            (All-mono (Carried w.given) (Carried given) w.to_receiver more v.packets)
            (subst (λ outs. All (Carried given) (map package_of outs)) (sym out)
              ((λ k. right), tt));
      window = v.window;
      stored = Stored-append w.given x.content w.receiver v.stored;
      honest =
          All-mono (Honest w.given) (Honest given) w.handed
            (λ q h. Right-append w.given x.content _ _ h) v.honest;
      ordered = v.ordered;
    }
Step-Safe {w} (hear c from p) v =
    let x = Server.on_network c from p w.server in
    let (same, seq, outs) = on_network-Serves w.given c from p w.server v.kept in
    record {
      counted = seq ∙ v.counted;
      kept = subst (Kept w.given) (sym same) v.kept;
      packets = All-append (Carried w.given) w.to_receiver (map package_of x.1) v.packets (
          All-map (Carried w.given) (λ o. Carried w.given (package_of o)) package_of x.1 (λ o h. h)
            outs);
      window = v.window;
      stored = v.stored;
      honest = v.honest;
      ordered = v.ordered;
    }
Step-Safe {w} (slide fuel now s e) v =
    let (same, seq) : Slid w.server (some s) =
      subst (Slid w.server) e (slide_head-Slid fuel now w.server.head w.server) in
    record {
      counted = seq ∙ v.counted;
      kept = subst (Kept w.given) (sym same) v.kept;
      packets = v.packets;
      window = v.window;
      stored = v.stored;
      honest = v.honest;
      ordered = v.ordered;
    }
Step-Safe {w} (wait now x e) v = received-Safe now none w x v tt e
Step-Safe {w} (arrive now c before after p x split e) v =
    received-Safe now (some (c, p)) w x v
      (All-middle (Carried w.given) before after p (subst (All (Carried w.given)) split v.packets))
      e

pub Reach-Safe : {w t : World} → Safe w → Reach w t → Safe t
Reach-Safe v here = v
Reach-Safe v (later r s) = Step-Safe s (Reach-Safe v r)
