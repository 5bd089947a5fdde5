-- ===== src/FileCopy/Transfer/Live.antt =====
-- p1/source/ncp.c and p1/source/rcv.c: the session is open until the sender finishes.
use cs2520_2021spring.Common.{
  ap, ℕ, zero, suc, ◌+◌, ◌≤◌, ◌≡◌, refl, sym, subst, arith, true, false, Option, none, some, List,
  [], ◌∷◌, map, length, All, All-append, All-middle,
}
use cs2520_2021spring.Common.Int.{pos, negsuc, ◌==ℤ◌}
use cs2520_2021spring.Common.Bytes.{NoNul}
use cs2520_2021spring.FileCopy.Message.{Message, Datagram, Addr}
use cs2520_2021spring.FileCopy.Sender
use cs2520_2021spring.FileCopy.Sender.{
  Sender, Next, go_on, lossy, direct, fill_window, init, keep, stamp, read_chunk,
}
use cs2520_2021spring.FileCopy.Sender.Invariant.{Truthful}
use cs2520_2021spring.FileCopy.Sender.Rounds.{round-Sound, start-Sound}
use cs2520_2021spring.FileCopy.Sender.Bounds.{start-frame}
use cs2520_2021spring.FileCopy.Sender.Reads.{conflict, Full, round-Full}
use cs2520_2021spring.FileCopy.Sender.Channel.{IsLossy, round-GoesOn}
use cs2520_2021spring.FileCopy.Receiver
use cs2520_2021spring.FileCopy.Receiver.{Receiver, start_session}
use cs2520_2021spring.FileCopy.Receiver.Delivery.{state_of}
use cs2520_2021spring.FileCopy.Receiver.Seated.{round-Seated}
use cs2520_2021spring.FileCopy.Transfer.{
  Link, World, Step, tick, answer, idle, deliver, Reach, here, later, begin, sent, datagram_of,
  is_finished, reply,
}
use cs2520_2021spring.FileCopy.Transfer.Invariant.{Inv, Reach-Inv}
use cs2520_2021spring.FileCopy.Transfer.Prefix.{Greeted}

abbrev pub IsOngoing : Datagram → Type 0
IsOngoing d = (d.hdr.seq ==ℤ negsuc 0) ≡ false

-- Until the sender finishes, the session is open, and the network holds no last datagram.
pub record Live (w : World) : Type 0 where
  pub full : Full w.sender
  pub seated : w.finished ≡ false → (w.receiver.has_sender ≡ true) × All IsOngoing w.to_receiver

not_last : (n : ℕ) → (pos n ==ℤ negsuc 0) ≡ false
not_last n = ground arith

outs-IsOngoing :
    (content : List ℕ) (tail : ℕ) (outs : List Sender.Out)
    → All (Truthful content tail) outs
    → All IsLossy outs
    → All IsOngoing (map datagram_of outs)
outs-IsOngoing content tail [] t l = tt
outs-IsOngoing content tail (lossy d ∷ outs) ((n, number, low, le, text), t) (_, l) =
    (rw number (not_last n), outs-IsOngoing content tail outs t l)
outs-IsOngoing content tail (direct d ∷ outs) t (never, l) = absurd never

goes_on : (n : Next) → is_finished n ≡ false → n ≡ go_on
goes_on go_on e = refl
goes_on Sender.finished e = cc

sent-Live :
    (content : List ℕ) (peer : Addr) (num : ℕ) (d : Option Datagram) (w : World)
    → w.finished ≡ false
    → Inv content peer w
    → Live w
    → Live (sent (Sender.round num d w.sender) w)
sent-Live content peer num d w going v l =
    let r = Sender.round num d w.sender in
    let (inv, truthful) = round-Sound content num d w.sender v.sender v.started in
    let (busy, ongoing) = l.seated going in
    record {
      full = round-Full num d w.sender l.full;
      seated = λ on. (
        busy,
        All-append IsOngoing w.to_receiver (map datagram_of r.1) ongoing (
            outs-IsOngoing content r.0.tail r.1 truthful
              (round-GoesOn num d w.sender (goes_on r.2 on))),
      );
    }

pub Step-Live :
    (content : List ℕ) (link : Link) {w t : World}
    → Step link w t
    → Inv content link.peer w
    → Live w
    → Live t
Step-Live content link {w} (tick num going) v l = sent-Live content link.peer num none w going v l
Step-Live content link {w} (answer num before after h going split) v l =
    sent-Live content link.peer num (some (reply link h)) w going v l
Step-Live content link {w} (idle now clock opened t p) v l = record {
  full = l.full;
  seated =
      λ on. let (busy, ongoing) = l.seated on in (round-Seated _ w.receiver t busy tt p, ongoing);
}
Step-Live content link {w} (deliver now clock opened before after d t split p) v l = record {
  full = l.full;
  seated = λ on.
      let (busy, ongoing) = l.seated on in
      let more = All-middle IsOngoing before after d (subst (All IsOngoing) split ongoing) in
      (round-Seated _ w.receiver t busy (v.session, more) p, ongoing);
}

pub Reach-Live :
    (content : List ℕ) (link : Link) {w t : World}
    → NoNul content
    → length link.echo_text ≤ 1359
    → Inv content link.peer w
    → Live w
    → Reach link w t
    → Live t
Reach-Live content link plain short v l here = l
Reach-Live content link plain short v l (later r s) =
    Step-Live content link s (Reach-Inv content link plain short v r)
      (Reach-Live content link plain short v l r)

fill_window-IsLossy : (n i : ℕ) (s : Sender) → All IsLossy (fill_window n i s).1
unfolding fill_window
fill_window-IsLossy zero i s = tt
fill_window-IsLossy (suc n) i s =
    (tt, fill_window-IsLossy n (i + 1) (keep i (stamp (read_chunk s))))

fill_window-open : (n i : ℕ) (s : Sender) → s.eof ≡ false → (fill_window n i s).0.eof ≡ false
unfolding fill_window keep stamp read_chunk
fill_window-open zero i s h = h
fill_window-open (suc n) i s h = fill_window-open n (i + 1) (keep i (stamp (read_chunk s))) h

greeted-busy :
    (peer : Addr) (r s : Receiver) (out : List Receiver.Out)
    → start_session true peer r ≡ some (s, out)
    → s.has_sender ≡ true
unfolding start_session
greeted-busy peer r s out e = sym (ap (λ (t : Receiver). t.has_sender) (state_of e))

pub begin-Live :
    (content : List ℕ) (peer : Addr) (mess : Message) (window : List Message) (greeted : Receiver)
    → length window ≡ 100
    → length mess.text ≡ 1360
    → Greeted peer greeted
    → Live (begin mess window content greeted)
unfolding Sender.start init
begin-Live content peer mess window greeted hw hm g =
    let (head, tail) = start-frame mess window content in
    let (inv, truthful) = start-Sound mess window content hw hm in
    record {
      full = (
        λ _. omega (arith, head, tail),
        λ over. absurd (conflict over (fill_window-open 100 1 (init mess window content) refl)),
      );
      seated = λ _. (
        greeted-busy peer g.idle greeted g.out g.opened,
        outs-IsOngoing content 100 _ truthful
            (fill_window-IsLossy 100 1 (init mess window content)),
      );
    }
