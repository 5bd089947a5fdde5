-- ===== src/RealTime/Transfer.antt =====
-- p2/source/rt_srv.c and p2/source/rt_rcv.c together, from the connection on: the two main loops, the
-- application that gives data to the server, and a network that may lose, repeat, delay and reorder what
-- the server sends. The server may hear anything from anyone, the receiver's ACKs among it; the receiver
-- hears the server alone.
pub mod Contents
pub mod Stored
pub mod Order
pub mod Channel
pub mod Handing
pub mod Stream
pub mod Example
mod Tests
use cs2520_2021spring.Common.{ℕ, ◌≡◌, Option, none, some, List, [], ◌∷◌, ◌++◌, map}
use cs2520_2021spring.Timeval.{Timeval}
use cs2520_2021spring.FileCopy.Message.{Addr}
use cs2520_2021spring.RealTime.Packet.{Package, StreamPkt}
use cs2520_2021spring.RealTime.Receiver
use cs2520_2021spring.RealTime.Receiver.{Receiver}
use cs2520_2021spring.RealTime.Server
use cs2520_2021spring.RealTime.Server.{Server, AppPkt, on_app, on_network, slide_head}

-- `given` is what the application has given to the server so far, as far as it fits the field `data`,
-- `handed` what the receiver has handed over, and `to_receiver` all that the server has sent.
pub record World : Type 0 where
  pub server : Server
  pub receiver : Receiver
  pub to_receiver : List Package
  pub given : List (List ℕ)
  pub handed : List StreamPkt

abbrev pub package_of : Server.Out → Package
package_of o = o.pkt

-- After a branch of the server's loop.
abbrev pub sent : Server × List Server.Out → World → World
sent x w = record w { server = x.0; to_receiver = w.to_receiver ++ map package_of x.1 }

-- After a round of the receiver's loop.
abbrev pub received : Receiver × List StreamPkt × List Package → World → World
received x w = record w { receiver = x.0; handed = w.handed ++ x.1 }

-- The three cases of the server's loop, and a round of the receiver's, with and without a packet.
pub data Step (w : World) : World → Type 0 where
  app :
      (now : Timeval) (data_in : AppPkt)
      → Step w (record (sent (on_app now data_in w.server) w) {
        given = w.given ++ data_in.content ∷ [];
      })
  hear :
      (c : Server.Clocks) (from : Addr) (p : Package)
      → Step w (sent (on_network c from p w.server) w)
  slide :
      (fuel : ℕ) (now : Timeval) (s : Server)
      → slide_head fuel now w.server.head w.server ≡ some s
      → Step w (record w { server = s })
  wait :
      (now : Timeval) (x : Receiver × List StreamPkt × List Package)
      → Receiver.round now none w.receiver ≡ some x
      → Step w (received x w)
  arrive :
      (now : Timeval) (c : Receiver.Clocks) (before after : List Package) (p : Package)
      (x : Receiver × List StreamPkt × List Package)
      → w.to_receiver ≡ before ++ p ∷ after
      → Receiver.round now (some (c, p)) w.receiver ≡ some x
      → Step w (received x w)

pub data Reach (w : World) : World → Type 0 where
  here : Reach w w
  later : {s t : World} → Reach w s → Step s t → Reach w t

-- The server and the receiver when they are connected; nothing is given, sent or handed over yet.
abbrev pub begin : Server → Receiver → World
begin server receiver = record {
  server = server;
  receiver = receiver;
  to_receiver = [];
  given = [];
  handed = [];
}
