-- ===== src/FileCopy/Transfer.antt =====
-- p1/source/ncp.c and p1/source/rcv.c together, from the sender's first window on: the two main loops,
-- and a network that may lose, repeat, delay and reorder what it is given. What was sent stays in the
-- network; any of it may arrive at any time, or never. No other program sends to the two. The names
-- that ncp.c sent before, which may still arrive, are in Transfer/Names.
pub mod Invariant
pub mod Prefix
pub mod Progress
pub mod Live
pub mod Complete
pub mod Names
mod Tests
use cs2520_2021spring.Common.{
  ℕ, ◌≡◌, Bool, true, false, Option, none, some, List, [], ◌∷◌, ◌++◌, map,
}
use cs2520_2021spring.Timeval.{Timeval}
use cs2520_2021spring.FileCopy.Message.{Header, Message, Datagram, Addr}
use cs2520_2021spring.FileCopy.Sender
use cs2520_2021spring.FileCopy.Sender.{Sender, Next}
use cs2520_2021spring.FileCopy.Receiver
use cs2520_2021spring.FileCopy.Receiver.{Receiver, start_session}

pub record World : Type 0 where
  pub sender : Sender
  pub finished : Bool
  pub receiver : Receiver
  pub to_receiver : List Datagram
  pub to_sender : List Header

abbrev pub datagram_of : Sender.Out → Datagram
datagram_of (Sender.lossy d) = d
datagram_of (Sender.direct d) = d

abbrev pub header_of : Receiver.Out → Header
header_of (Receiver.lossy to h) = h
header_of (Receiver.direct to h) = h

-- The session's sender, and the text behind the header of every reply: nothing writes the array
-- `echo_mess_buf` behind its header, so that `strlen` measures there what the stack held.
pub record Link : Type 0 where
  pub peer : Addr
  pub echo_text : List ℕ

abbrev pub reply : Link → Header → Datagram
reply link h = record { hdr = h; payload = link.echo_text }

abbrev pub is_finished : Next → Bool
is_finished Sender.go_on = false
is_finished Sender.finished = true

-- After a round of the sender.
abbrev pub sent : Sender.Result → World → World
sent r w = record w {
  sender = r.0;
  finished = is_finished r.2;
  to_receiver = w.to_receiver ++ map datagram_of r.1;
}

-- After a round of the receiver.
abbrev pub received : Receiver × List Receiver.Out → World → World
received r w = record w { receiver = r.0; to_sender = w.to_sender ++ map header_of r.1 }

-- A round of one of the loops: with nothing to read, or with something that the network holds. The
-- receiver's round may bring its clocks and the answer of `fopen`; `none` would be its `exit`.
pub data Step (link : Link) (w : World) : World → Type 0 where
  tick : (num : ℕ) → w.finished ≡ false → Step link w (sent (Sender.round num none w.sender) w)
  answer :
      (num : ℕ) (before after : List Header) (h : Header)
      → w.finished ≡ false
      → w.to_sender ≡ before ++ h ∷ after
      → Step link w (sent (Sender.round num (some (reply link h)) w.sender) w)
  idle :
      (now clock : Timeval) (opened : Bool) (t : Receiver × List Receiver.Out)
      → Receiver.round
          (record { now = now; sent = clock; opened = opened; arrival = none })
          w.receiver
        ≡ some t
      → Step link w (received t w)
  deliver :
      (now clock : Timeval) (opened : Bool) (before after : List Datagram) (d : Datagram)
      (t : Receiver × List Receiver.Out)
      → w.to_receiver ≡ before ++ d ∷ after
      → Receiver.round
          (record { now = now; sent = clock; opened = opened; arrival = some (link.peer, d) })
          w.receiver
        ≡ some t
      → Step link w (received t w)

pub data Reach (link : Link) (w : World) : World → Type 0 where
  here : Reach link w w
  later : {s t : World} → Reach link w s → Step link s t → Reach link w t

-- The sender after its first window, and a receiver in the session that it opened: `greeted` is what
-- `start_session` made of a receiver that had just received the name. Its reply may be repeated.
abbrev pub begin : Message → List Message → List ℕ → Receiver → World
begin mess window content greeted = record {
  sender = (Sender.start mess window content).0;
  finished = false;
  receiver = greeted;
  to_receiver = map datagram_of (Sender.start mess window content).1;
  to_sender = greeted.echo ∷ [];
}
