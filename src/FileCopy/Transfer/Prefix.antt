-- ===== src/FileCopy/Transfer/Prefix.antt =====
-- p1/source/ncp.c and p1/source/rcv.c: the state behind the first window, and what whole blocks make of a file.
use cs2520_2021spring.Common.{
  ℕ, zero, suc, ◌+◌, ◌*◌, ◌-◌, ◌≤◌, ◌≡◌, refl, sym, ◌∙◌, ap, ap₂, subst, true, some, List, [], ◌∷◌,
  ◌++◌, length, take, drop, map, All, arith,
}
use cs2520_2021spring.Common.Int.{pos}
use cs2520_2021spring.FileCopy.Message.{Message, Addr, same_addr}
use cs2520_2021spring.FileCopy.Sender.Invariant.{block}
use cs2520_2021spring.FileCopy.Sender.Rounds.{start-Sound}
use cs2520_2021spring.FileCopy.Sender.Ended.{HasEnd, start-Ended}
use cs2520_2021spring.FileCopy.Sender.Bounds.{start-frame}
use cs2520_2021spring.FileCopy.Sender
use cs2520_2021spring.FileCopy.Receiver
use cs2520_2021spring.FileCopy.Receiver.{Receiver, start_session}
use cs2520_2021spring.FileCopy.Receiver.Slots.{Written}
use cs2520_2021spring.FileCopy.Receiver.Delivery.{state_of, start_session-Inv}
use cs2520_2021spring.FileCopy.Receiver.Frame.{Ready}
use cs2520_2021spring.FileCopy.Transfer.{begin, datagram_of}
use cs2520_2021spring.FileCopy.Transfer.Invariant.{outs-Sent, Inv, IsBlock, Sent}

take-nil : (k : ℕ) → take {A = ℕ} k [] ≡ []
take-nil zero = refl
take-nil (suc k) = refl

the_suc : (a b : ℕ) → suc a + b ≡ suc (a + b)
the_suc a b = omega arith

take-add : (a b : ℕ) (xs : List ℕ) → take (a + b) xs ≡ take a xs ++ take b (drop a xs)
take-add zero b xs = ap (λ k. take k xs) (omega arith)
take-add (suc a) b [] = take-nil (suc a + b) ∙ ap (λ t. [] ++ t) (sym (take-nil b))
take-add (suc a) b (x ∷ xs) =
    ap (λ k. take k (x ∷ xs)) (the_suc a b) ∙ ap (λ t. x ∷ t) (take-add a b xs)

pred_suc : (n : ℕ) → n ≡ suc n - 1
pred_suc n = omega arith

take-block :
    (content : List ℕ) (n : ℕ)
    → take (1359 * suc n) content ≡ take (1359 * n) content ++ block content (suc n)
take-block content n =
    ap (λ k. take k content) (omega arith)
    ∙ take-add (1359 * n) 1359 content
    ∙ ap (λ k. take (1359 * n) content ++ take 1359 (drop (1359 * k) content)) (pred_suc n)

-- Whole blocks, one behind the other, are the beginning of the file.
pub Written-take :
    (content : List ℕ) (n : ℕ) (file : List ℕ)
    → 1359 * n ≤ length content
    → Written (IsBlock content) n file
    → file ≡ take (1359 * n) content
Written-take content zero file h w = w
Written-take content (suc n) file h (before, text, e, w, t) =
    e
    ∙ ap₂ (λ xs ys. xs ++ ys) (Written-take content n before (omega arith) w) (t h)
    ∙ sym (take-block content n)

-- A session that has just been opened.
pub record Greeted (peer : Addr) (r : Receiver) : Type 0 where
  pub idle : Receiver
  pub window_len : length idle.window ≡ 100
  pub ready : Ready idle
  pub out : List Receiver.Out
  pub opened : start_session true peer idle ≡ some (r, out)

greeted_fields :
    (peer : Addr) (idle r : Receiver) (out : List Receiver.Out)
    → start_session true peer idle ≡ some (r, out)
    → (r.current ≡ peer) × (r.c_ack ≡ 0) × (r.echo.cack ≡ pos 0) × (r.mess ≡ idle.mess)
unfolding start_session
greeted_fields peer idle r out e =
    let f = state_of e in
    (
      sym (ap (λ t. t.current) f),
      sym (ap (λ t. t.c_ack) f),
      sym (ap (λ t. t.echo.cack) f),
      sym (ap (λ t. t.mess) f),
    )

same_addr_self : (a : Addr) → same_addr a a ≡ true
same_addr_self a = ground arith

pub begin-Inv :
    (content : List ℕ) (peer : Addr) (mess : Message) (window : List Message) (greeted : Receiver)
    → length window ≡ 100
    → length mess.text ≡ 1360
    → HasEnd mess
    → Greeted peer greeted
    → Inv content peer (begin mess window content greeted)
begin-Inv content peer mess window greeted hw hm he g =
    let (inv, truthful) = start-Sound mess window content hw hm in
    let (ends, ended_out) = start-Ended mess window content hw he in
    let f = start-frame mess window content in
    let (current, none_yet, greeting, text) = greeted_fields peer g.idle greeted g.out g.opened in
    record {
      sender = inv;
      ended = ends;
      started = omega (arith, f.0);
      acked = omega (arith, f.0);
      receiver =
          start_session-Inv (IsBlock content) true peer g.idle greeted g.out g.window_len g.opened;
      ready = record { len = rw text g.ready.len; ended = rw text g.ready.ended };
      session = rw current (same_addr_self peer);
      packets =
          subst (λ k. All (Sent content k) (map datagram_of (Sender.start mess window content).1))
            (sym f.1)
            (outs-Sent content 100 (Sender.start mess window content).1 truthful ended_out);
      acks = (rw (greeting, none_yet) (omega arith), tt);
    }
