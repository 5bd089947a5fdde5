-- ===== src/RealTime/Transfer/Channel.antt =====
-- p2/source/rt_srv.c and p2/source/rt_rcv.c together, from their connection on, as one channel that may
-- lose but neither changes, repeats nor reorders what it is given.
use mathlib.Core.List.{Sublist, Sublistᴰ}
use cs2520_2021spring.Common.{
  ℕ, zero, suc, ◌-◌, ◌≤◌, ◌<◌, ◌≡◌, refl, ap, sym, subst, arith, ◌∙◌, if-ind, Option, none, some,
  List, [], ◌∷◌, map, length, get_or, drop, All, get_or-replicate, drop-get_or,
}
use cs2520_2021spring.Common.Int.{pos, ◌==ℤ◌}
use cs2520_2021spring.Timeval.{Timeval}
use cs2520_2021spring.FileCopy.Message.{Addr}
use cs2520_2021spring.RealTime.Packet.{Package, StreamPkt}
use cs2520_2021spring.RealTime.Receiver.{
  Receiver, Connect, connected, waiting, refused, on_answer, init, size_of, blank,
}
use cs2520_2021spring.RealTime.Receiver.Window
use cs2520_2021spring.RealTime.Receiver.Accept.{Increasing, init-Inv}
use cs2520_2021spring.RealTime.Server
use cs2520_2021spring.RealTime.Server.{Server, accept}
use cs2520_2021spring.RealTime.Transfer.{World, Reach, begin}
use cs2520_2021spring.RealTime.Transfer.Stored.{Stored, Honest}
use cs2520_2021spring.RealTime.Transfer.Order.{Safe, Reach-Safe}

abbrev pub contents : List StreamPkt → List (List ℕ)
contents ps = map (λ p. p.content) ps

module _ {ℓ} {A : Type ℓ} where
  nothing-Sublist : (ys : List A) → Sublistᴰ [] ys
  nothing-Sublist [] = Sublistᴰ.slnil
  nothing-Sublist (y ∷ ys) = Sublistᴰ.cons (nothing-Sublist ys)

  -- From further on, it is from earlier on too.
  drop-Sublist :
      (xs ys : List A) (k l : ℕ) → k ≤ l → Sublistᴰ xs (drop l ys) → Sublistᴰ xs (drop k ys)
  drop-Sublist xs [] zero zero h s = s
  drop-Sublist xs [] zero (suc l) h s = s
  drop-Sublist xs [] (suc k) zero h s = s
  drop-Sublist xs [] (suc k) (suc l) h s = s
  drop-Sublist xs (y ∷ ys) zero zero h s = s
  drop-Sublist xs (y ∷ ys) zero (suc l) h s =
      Sublistᴰ.cons (drop-Sublist xs ys zero l (omega arith) s)
  drop-Sublist xs (y ∷ ys) (suc k) zero h s = absurd (omega (arith, h))
  drop-Sublist xs (y ∷ ys) (suc k) (suc l) h s = drop-Sublist xs ys k l (omega (arith, h)) s

before_next : (n : ℕ) → 0 < n → suc (n - 1) ≡ n
before_next n h = omega (arith, h)

handed-Sublist :
    (given : List (List ℕ)) (lo hi : ℕ) (ps : List StreamPkt)
    → Increasing lo ps hi
    → All (Honest given) ps
    → Sublistᴰ (contents ps) (drop lo given)
handed-Sublist given lo hi [] up honest = nothing-Sublist (drop lo given)
handed-Sublist given lo hi (p ∷ ps) (n, further, number, up) (right, honest) =
    let (le, same) = right n (omega (arith, further)) number in
    let split : drop (n - 1) given ≡ get_or given (n - 1) [] ∷ drop n given =
      drop-get_or {0} (n - 1) given [] (omega (arith, further, le))
      ∙ ap (λ k. get_or given (n - 1) [] ∷ drop k given) (before_next n (omega (arith, further))) in
    drop-Sublist (contents (p ∷ ps)) given lo (n - 1) (omega (arith, further)) (
      subst (Sublistᴰ (contents (p ∷ ps))) (sym split)
        (Sublistᴰ.cons-cons same (handed-Sublist given n hi ps up honest)))

pub handed-le :
    (given : List (List ℕ)) (lo hi : ℕ) (ps : List StreamPkt)
    → lo ≤ length given
    → Increasing lo ps hi
    → All (Honest given) ps
    → hi ≤ length given
handed-le given lo hi [] le up honest = omega (arith, le, up)
handed-le given lo hi (p ∷ ps) le (n, further, number, up) (right, honest) =
    handed-le given n hi ps (right n (omega (arith, further)) number).0 up honest

-- The server after its `accept` and the receiver after its permission. `malloc` gives the server's
-- window, which is large, as fresh pages of zeros.
pub record Connected (server : Server) (receiver : Receiver) : Type 0 where
  pub ms : ℕ
  pub echo : Package
  pub receiver_window : List Package
  pub answered : Timeval
  pub permission : Package
  pub from : Addr
  pub asked : Package
  pub accepted : Timeval
  pub server_window : List Package
  pub times : List Timeval
  pub outs : List Server.Out
  pub window_len : length receiver_window ≡ size_of ms
  pub fresh_pages : (j : ℕ) → (get_or server_window j blank).seq ≡ pos 0
  pub admitted : on_answer answered permission (init ms receiver_window echo) ≡ connected receiver
  pub accepts : accept accepted from asked server_window times ≡ some (server, outs)

abbrev Begun : Connect → Type 0
Begun (waiting r) = Unit
Begun refused = Unit
Begun (connected r) = Window.Inv r × Stored [] r × (r.c_ack ≡ 0)

on_answer-Begun :
    (now : Timeval) (p : Package) (ms : ℕ) (window : List Package) (echo : Package)
    → length window ≡ size_of ms
    → Begun (on_answer now p (init ms window echo))
unfolding on_answer init
on_answer-Begun now p ms window echo h =
    let v = init-Inv ms window echo h in
    if-ind Begun (p.kind ==ℤ pos 5) _ _ (λ _. tt)
      (λ _.
        if-ind Begun (p.kind ==ℤ pos 4) _ _
          (λ _. (
            record {
              nonempty = v.nonempty;
              buffer_len = v.buffer_len;
              window_len = v.window_len;
              counted = v.counted;
              bits = v.bits;
              holds = v.holds;
            },
            λ i marked. absurd (omega (arith, marked, get_or-replicate {A = ℕ} (size_of ms) i 0)),
            refl,
          ))
          (λ _. tt))

abbrev Accepted : List Package → Option (Server × List Server.Out) → Type 0
Accepted window none = Unit
Accepted window (some x) = (x.0.seq ≡ 1) × (x.0.window ≡ window)

accept-Accepted :
    (now : Timeval) (from : Addr) (p : Package) (window : List Package) (times : List Timeval)
    → Accepted window (accept now from p window times)
unfolding accept
accept-Accepted now from p window times =
    if-ind (Accepted window) (p.kind ==ℤ pos 3) _ _ (λ _. (refl, refl)) (λ _. tt)

pub begin-Safe : (s : Server) (r : Receiver) → Connected s r → Safe (begin s r)
begin-Safe s r c =
    let (window, stored, none_yet) : Begun (connected r) =
      subst Begun c.admitted
        (on_answer-Begun c.answered c.permission c.ms c.receiver_window c.echo c.window_len) in
    let (first, same) : Accepted c.server_window (some (s, c.outs)) =
      subst (Accepted c.server_window) c.accepts
        (accept-Accepted c.accepted c.from c.asked c.server_window c.times) in
    record {
      counted = first;
      kept = λ j n low e.
          absurd (
            pos_zero (sym (c.fresh_pages j) ∙ ap (λ t. (get_or t j blank).seq) (sym same) ∙ e) low);
      packets = tt;
      window = window;
      stored = stored;
      honest = tt;
      ordered = sym none_yet;
    }
  where
    pos_zero : {n : ℕ} → pos 0 ≡ pos n → 0 < n → ⊥
    pos_zero e h = ground (arith, e, h)

-- From the connection on, whatever the network loses, repeats, delays or reorders, whatever the server is
-- sent and by whom, and if the server's fresh window is zeros: what the receiver has handed over is, packet
-- for packet, a sublist of what the application has given to the server; the numbers handed over grow, up
-- to `C_ack`, which is at most the number of packets given.
pub handed_in_order :
    (server : Server) (receiver : Receiver) (w : World)
    → Connected server receiver
    → Reach (begin server receiver) w
    → Sublist (contents w.handed) w.given
      × Increasing 0 w.handed w.receiver.c_ack
      × (w.receiver.c_ack ≤ length w.given)
handed_in_order server receiver w c reach =
    let v = Reach-Safe (begin-Safe server receiver c) reach in
    (
      ∣ handed-Sublist w.given 0 w.receiver.c_ack w.handed v.ordered v.honest ∣₁,
      v.ordered,
      handed-le w.given 0 w.receiver.c_ack w.handed (omega arith) v.ordered v.honest,
    )
