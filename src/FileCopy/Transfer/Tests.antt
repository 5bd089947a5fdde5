-- ===== src/FileCopy/Transfer/Tests.antt =====
-- A transfer of one block by p1/source/ncp.c and p1/source/rcv.c.
use cs2520_2021spring.FileCopy.Sender.{read_chunk, stamp, keep, Sender, fill_window}
use cs2520_2021spring.Common.{
  false, ap, drop, get_or, map, ◌++◌, ℕ, zero, suc, ◌+◌, ◌*◌, ◌≤◌, ◌≡◌, refl, true, Option, none,
  some, List, [], ◌∷◌, length, replicate, take, arith, length-replicate,
}
use cs2520_2021spring.Common.Int.{◌-ℤ◌, pos}
use cs2520_2021spring.Common.Bytes.{cstr, NoNul}
use cs2520_2021spring.Timeval.{timersub, zero_time}
use cs2520_2021spring.FileCopy.Message.{Datagram, Header, Message, Addr, chunk_len}
use cs2520_2021spring.FileCopy.Sender.Ended.{HasEnd}
use cs2520_2021spring.FileCopy.Buffer.{IsEnded}
use cs2520_2021spring.FileCopy.Sender.Bounds.{start-frame}
use cs2520_2021spring.FileCopy.Receiver
use cs2520_2021spring.FileCopy.Sender
use cs2520_2021spring.FileCopy.Receiver.{
  nack_request, decline, account, write_current, acknowledge, deliver_alone, timer_due, check_timer,
  on_data, receive, Round, on_arrival, Receiver, start_session,
}
use cs2520_2021spring.FileCopy.Transfer.{
  Link, deliver, datagram_of, reply, received, tick, sent, World, Step, Reach, here, begin,
}
use cs2520_2021spring.FileCopy.Transfer.Invariant.{Inv, Step-Inv}
use cs2520_2021spring.FileCopy.Transfer.Prefix.{Greeted, begin-Inv}
use cs2520_2021spring.FileCopy.Transfer.Names.{Course, goes, named, starts, file_is_prefix}
use cs2520_2021spring.FileCopy.Transfer.Complete.{can_complete}

abbrev content : List ℕ
content = replicate 1359 97

abbrev peer : Addr
peer = record { ip = 7; port = 10120 }

abbrev link : Link
link = record { peer = peer; echo_text = 120 ∷ [] }

abbrev header : Header
header = record { cack = pos 0; nack = []; seq = pos 0 }

abbrev mess : Message
mess = record { hdr = header; text = replicate 1360 0 }

abbrev window : List Message
window = replicate 100 mess

abbrev idle : Receiver
idle = Receiver.init mess header window

abbrev state_of : Option (Receiver × List Receiver.Out) → Receiver
state_of none = idle
state_of (some (r, out)) = r

abbrev greeted : Receiver
greeted = state_of (start_session true peer idle)

abbrev start : World
start = begin mess window content greeted

plain : (n : ℕ) → NoNul (replicate n 97)
plain zero = tt
plain (suc n) = ((λ e. absurd (omega (arith, e))), plain n)

mess_ended : HasEnd mess
unfolding cstr
mess_ended = refl

greeted-Greeted : Greeted peer greeted
unfolding start_session Receiver.init
greeted-Greeted = record {
  idle = idle;
  window_len = length-replicate {A = Message} 100 mess;
  ready = record { len = length-replicate {A = ℕ} 1360 0; ended = mess_ended };
  out = Receiver.direct peer header ∷ [];
  opened = refl;
}

busy : greeted.has_sender ≡ true
unfolding start_session
busy = refl

misses : greeted.c_ack ≡ 0
unfolding start_session
misses = refl

frame : (start.sender.head ≡ 1) × (start.sender.tail ≡ 100)
frame = start-frame mess window content

-- The first packet arrives.
abbrev first : Datagram
first = get_or start.to_receiver 0 (reply link header)

abbrev arrival : Round
arrival = record { now = zero_time; sent = zero_time; opened = true; arrival = some (peer, first) }

abbrev sent_by : Option (Receiver × List Receiver.Out) → List Receiver.Out
sent_by none = []
sent_by (some (r, out)) = out

abbrev one_written : Receiver × List Receiver.Out
one_written = (state_of (Receiver.round arrival greeted), sent_by (Receiver.round arrival greeted))

fill_window-length : (n i : ℕ) (s : Sender) → length (map datagram_of (fill_window n i s).1) ≡ n
unfolding fill_window
fill_window-length zero i s = refl
fill_window-length (suc n) i s =
    ap suc (fill_window-length n (i + 1) (keep i (stamp (read_chunk s))))

first_of :
    (ds : List Datagram) (n : ℕ)
    → length ds ≡ suc n
    → ds ≡ [] ++ get_or ds 0 (reply link header) ∷ drop 1 ds
first_of [] n h = absurd (omega (arith, h))
first_of (d ∷ ds) n h = refl

all_sent : length start.to_receiver ≡ 100
unfolding Sender.start
all_sent = fill_window-length 100 1 (Sender.init mess window content)

first_round : Receiver.round arrival greeted ≡ some one_written
unfolding Receiver.round on_arrival receive on_data check_timer timer_due start_session
    Receiver.init Sender.start fill_window stamp read_chunk Sender.init timersub ◌-ℤ◌
first_round = refl

first_step : Step link start (received one_written start)
first_step =
    deliver zero_time zero_time true [] (drop 1 start.to_receiver) first one_written
      (first_of start.to_receiver 99 all_sent) first_round

start-Inv : Inv content peer start
start-Inv =
    begin-Inv content peer mess window greeted (length-replicate {A = Message} 100 mess)
      (length-replicate {A = ℕ} 1360 0) mess_ended greeted-Greeted

one_acked : one_written.0.c_ack ≡ 1
unfolding Receiver.round on_arrival receive on_data check_timer timer_due start_session
    Receiver.init Sender.start fill_window stamp read_chunk Sender.init timersub ◌-ℤ◌ deliver_alone
    acknowledge write_current account
one_acked = refl

-- A repeated name, behind the first packet.
abbrev late_name : Datagram
late_name = record { hdr = record header { seq = pos 0 }; payload = 110 ∷ 0 ∷ [] }

abbrev late_arrival : Round
late_arrival = record {
  now = zero_time;
  sent = zero_time;
  opened = true;
  arrival = some (peer, late_name);
}

abbrev named_again : Receiver × List Receiver.Out
named_again = (
  state_of (Receiver.round late_arrival one_written.0),
  sent_by (Receiver.round late_arrival one_written.0),
)

late_name-IsEnded : IsEnded 1359 late_name.payload
unfolding cstr
late_name-IsEnded = refl

named_round : Receiver.round late_arrival one_written.0 ≡ some named_again
unfolding Receiver.round on_arrival receive on_data check_timer timer_due start_session
    Receiver.init Sender.start fill_window stamp read_chunk Sender.init timersub ◌-ℤ◌ deliver_alone
    acknowledge write_current account nack_request
named_round = refl

named_acked : named_again.0.c_ack ≡ 1
unfolding Receiver.round on_arrival receive on_data check_timer timer_due start_session
    Receiver.init Sender.start fill_window stamp read_chunk Sender.init timersub ◌-ℤ◌ deliver_alone
    acknowledge write_current account nack_request
named_acked = refl

course : Course link start (received named_again (received one_written start))
course =
    named (goes starts first_step) zero_time zero_time true late_name named_again refl
      (refl, late_name-IsEnded) named_round

file_is_prefix_example :
    (named_again.0.file ≡ take (chunk_len * named_again.0.c_ack) content)
    × (start.sender.head ≤ named_again.0.c_ack + 1)
file_is_prefix_example =
    file_is_prefix content link mess window greeted
      (received named_again (received one_written start)) (plain 1359) (omega arith)
      (length-replicate {A = Message} 100 mess) (length-replicate {A = ℕ} 1360 0) mess_ended
      greeted-Greeted course (omega (arith, named_acked, length-replicate {A = ℕ} 1359 97))

Step-Inv_example : Inv content peer (sent (Sender.round 0 none start.sender) start)
Step-Inv_example = Step-Inv content link (plain 1359) (omega arith) (tick 0 refl) start-Inv

can_complete_example :
    (t : World) × Reach link start t
    × (t.finished ≡ false)
    × (length content ≤ chunk_len * t.sender.tail)
    × (t.sender.tail ≤ t.receiver.c_ack + 1)
can_complete_example =
    can_complete content link mess window greeted start (plain 1359) (omega arith)
      (length-replicate {A = Message} 100 mess) (length-replicate {A = ℕ} 1360 0) mess_ended
      greeted-Greeted here refl
