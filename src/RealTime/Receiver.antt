-- ===== src/RealTime/Receiver.antt =====
-- p2/source/rt_rcv.c: the receiver of the real-time transport: its connection, the delivery of the
-- packets that are due, the data packets with their acknowledgement, and the ACKACK.
-- `size` is `WINDOW_SIZE`. The statistics in `double`, the reports and their timer are in
-- Receiver/Monitor. A clock that the source reads is an argument.
pub mod Window
pub mod Deliver
pub mod Handed
pub mod Nacks
pub mod Accept
pub mod Loss
pub mod Monitor
pub mod Watched
pub mod Extremes
mod Tests
use cs2520_2021spring.Common.{
  ℕ, zero, suc, ◌+◌, ◌-◌, ◌*◌, ◌/◌, ◌%◌, Bool, true, false, ◌&&◌, ◌||◌, ltb, ◌==◌, if◌then◌else◌,
  Option, none, some, List, [], ◌∷◌, ◌++◌, get_or, set, replicate,
}
use cs2520_2021spring.Common.Int.{ℤ, pos, negsuc, pos_part, ltb_ℤ, leb_ℤ, ◌==ℤ◌}
use cs2520_2021spring.Timeval.{Timeval, timeradd, timersub, cmp_time, half_time, zero_time}
use cs2520_2021spring.RealTime.Packet.{Package, StreamPkt, nack_size}
use cs2520_2021spring.RealTime.Estimator.{Estimator, fresh, observe, observe_rtt}

pub record Receiver : Type 0 where
  pub size : ℕ
  pub latency_window : Timeval
  pub delta : Estimator
  pub rtt : Estimator
  pub c_ack : ℕ
  pub buffersize : ℕ
  pub buffer : List ℕ
  pub window : List Package
  pub echo : Package
  pub rcvd_count : ℕ
  pub highestseq : ℤ

abbrev pub blank : Package
blank = record {
  kind = pos 0;
  seq = pos 0;
  content = [];
  ack = pos 0;
  nack = [];
  send_ts = zero_time;
  n_send_ts = zero_time;
  receive_ts1 = zero_time;
  ackack_ts = zero_time;
  latency_window = zero_time;
  window_size = pos 0;
  halfrtt = zero_time;
}

-- The command line's latency window, in milliseconds and not negative, and the sizes made from it.
unfoldable pub window_of : ℕ → Timeval
window_of ms = record { sec = pos (ms / 1000); usec = pos ((ms - ms / 1000 * 1000) * 1000) }

unfoldable pub size_of : ℕ → ℕ
size_of ms = ms * 25 / 14 + 100

unfoldable pub init : ℕ → List Package → Package → Receiver
unfolding window_of size_of
init ms window echo = record {
  size = size_of ms;
  latency_window = window_of ms;
  delta = fresh zero_time;
  rtt = fresh (record { sec = pos 0; usec = pos 40000 });
  c_ack = 0;
  buffersize = 0;
  buffer = replicate (size_of ms) 0;
  window = window;
  echo = echo;
  rcvd_count = 0;
  highestseq = pos 0;
}

-- The connection: a permission gives the first samples, a decline ends the program, and a second
-- without an answer repeats the request.
pub data Connect : Type 0 where
  waiting connected : Receiver → Connect
  refused : Connect

abbrev pub first_sample : Timeval → Estimator → Estimator
first_sample x e = record e {
  value = x;
  secs = set e.secs e.count x.sec;
  usecs = set e.usecs e.count x.usec;
  count = e.count + 1;
}

unfoldable pub on_answer : Timeval → Package → Receiver → Connect
on_answer now p r =
    if p.kind ==ℤ pos 5
    then refused
    else if p.kind ==ℤ pos 4
    then connected (record r {
      delta = first_sample (timersub now p.receive_ts1) r.delta;
      rtt = first_sample (half_time (timersub now p.send_ts)) r.rtt;
    })
    else waiting r

unfoldable pub request : Timeval → Receiver → Receiver × Package
request now r =
    let p : Package = record r.echo {
      send_ts = now;
      kind = pos 3;
      window_size = pos r.size;
      latency_window = timeradd r.latency_window zero_time;
    } in
    (record r { echo = p }, p)

-- When a packet is handed over: its sending time, the clock offset and the latency window.
unfoldable pub due_time : Receiver → Package → Timeval
due_time r p = timeradd (timeradd r.delta.value p.send_ts) r.latency_window

unfoldable pub is_due : Timeval → Receiver → Package → Bool
is_due now r p = ltb_ℤ (negsuc 0) (cmp_time now (due_time r p))

abbrev pub slot : Receiver → ℕ → ℕ
slot r i = get_or r.buffer (i % r.size) 0

abbrev pub held : Receiver → ℕ → Package
held r i = get_or r.window (i % r.size) blank

abbrev pub stream : Timeval → Package → StreamPkt
stream now p = record { seq = p.seq; ts = now; content = p.content }

unfoldable pub hand_over : ℕ → Receiver → Receiver
hand_over i r = record r {
  buffersize = r.buffersize - 1;
  buffer = set r.buffer (i % r.size) 0;
  c_ack = i;
}

abbrev pub prepend :
    StreamPkt → Option (Receiver × List StreamPkt) → Option (Receiver × List StreamPkt)
prepend p none = none
prepend p (some (r, out)) = some (r, p ∷ out)

-- `for (i = C_ack + 1; i < C_ack + 1 + WINDOW_SIZE && buffersize > 0; i++)`, where the body moves
-- `C_ack`; `none` means that the fuel ran out.
unfoldable pub deliver : ℕ → Timeval → ℕ → Receiver → Option (Receiver × List StreamPkt)
deliver zero now i r = none
deliver (suc fuel) now i r =
    let next = deliver fuel now (i + 1) r in
    let taken = prepend (stream now (held r i)) (deliver fuel now (i + 1) (hand_over i r)) in
    if ltb i (r.c_ack + 1 + r.size) && ltb 0 r.buffersize
    then (if slot r i == 0 then next else if is_due now r (held r i) then taken else some (r, []))
    else some (r, [])

-- Enough rounds for every call.
abbrev pub deliver_fuel : Receiver → ℕ
deliver_fuel r = r.buffersize * r.size + r.size + 1

unfoldable pub deliver_due : Timeval → Receiver → Option (Receiver × List StreamPkt)
deliver_due now r = deliver (deliver_fuel r) now (r.c_ack + 1) r

-- The packets before `seq` that are missing, `for (i = C_ack + 1, j = 0; i < seq && j < NACK_SIZE; …)`,
-- with the numbers that are left to look at.
unfoldable pub find_nacks : ℕ → ℕ → ℕ → Receiver → List ℤ → List ℤ
find_nacks zero i j r nack = nack
find_nacks (suc n) i j r nack =
    if ltb j nack_size
    then find_nacks n (i + 1) (if slot r i == 0 then j + 1 else j) r
        (if slot r i == 0 then set nack j (pos i) else nack)
    else nack

unfoldable pub nacks_before : ℕ → Receiver → List ℤ
nacks_before seq r =
    find_nacks (seq - (r.c_ack + 1)) (r.c_ack + 1) 0 r (replicate nack_size (negsuc 0))

-- The clocks that the branch of a data packet reads, in its order.
pub record Clocks : Type 0 where
  pub checked : Timeval
  pub now : Timeval
  pub received : Timeval
  pub echoed : Timeval

-- The packet lies in the window, and its slot is free. `pos_part` is exact behind the first test.
unfoldable pub has_room : Package → Receiver → Bool
has_room p r =
    leb_ℤ (pos (r.c_ack + 1)) p.seq
    && ltb_ℤ p.seq (pos (r.c_ack + 1 + r.size))
    && slot r (pos_part p.seq) == 0

-- Its time to be handed over has not passed.
unfoldable pub in_time : Timeval → Package → Receiver → Bool
in_time now p r =
    let due = timeradd (timeradd p.send_ts r.delta.value) r.latency_window in
    ltb_ℤ (negsuc 0) (cmp_time due now)

unfoldable pub store : Clocks → Package → Receiver → Receiver
store c p r =
    let first = p.kind ==ℤ pos 0 in
    let offset = timersub c.now (if first then p.send_ts else p.n_send_ts) in
    let i = pos_part p.seq % r.size in
    record r {
      highestseq = if first && ltb_ℤ r.highestseq p.seq then p.seq else r.highestseq;
      rcvd_count = r.rcvd_count + 1;
      delta = observe offset r.delta;
      window = set r.window i (record p { receive_ts1 = c.received });
      buffersize = r.buffersize + 1;
      buffer = set r.buffer i 1;
    }

unfoldable pub acknowledgement : Clocks → Package → Receiver → Package
acknowledgement c p r = record r.echo {
  kind = pos 2;
  send_ts = timeradd zero_time p.send_ts;
  n_send_ts = timeradd zero_time p.n_send_ts;
  receive_ts1 = c.echoed;
  seq = p.seq;
  ack = p.seq;
  nack = nacks_before (pos_part p.seq) r;
  halfrtt = r.rtt.value;
}

unfoldable pub on_data : Clocks → Package → Receiver → Receiver × List Package
on_data c p r =
    if has_room p r && in_time c.checked p r
    then (let s = store c p r in let a = acknowledgement c p s in (record s { echo = a }, a ∷ []))
    else (r, [])

-- The offset and half the round trip, from the four times that the exchange has gathered.
unfoldable pub on_ackack : Timeval → Package → Receiver → Receiver
on_ackack now p r =
    let back = timersub now p.receive_ts1 in
    let there =
      timersub p.ackack_ts (if p.n_send_ts.sec ==ℤ negsuc 0 then p.send_ts else p.n_send_ts) in
    record r {
      delta = observe (timersub now p.ackack_ts) r.delta;
      rtt = observe_rtt (half_time (half_time (timeradd back there))) r.rtt;
    }

unfoldable pub receive : Clocks → Package → Receiver → Receiver × List Package
receive c p r =
    if p.kind ==ℤ pos 0 || p.kind ==ℤ pos 6
    then on_data c p r
    else if p.kind ==ℤ pos 1
    then (on_ackack c.now p r, [])
    else (r, [])

-- What `select` brings after the delivery, if it is a packet.
abbrev pub react :
    Option (Clocks × Package)
    → Option (Receiver × List StreamPkt)
    → Option (Receiver × List StreamPkt × List Package)
react none none = none
react (some a) none = none
react none (some (r, out)) = some (r, out, [])
react (some (c, p)) (some (r, out)) = some ((receive c p r).0, out, (receive c p r).1)

-- One round of the main loop: first what is due, then what arrives.
unfoldable pub round :
    Timeval
    → Option (Clocks × Package)
    → Receiver
    → Option (Receiver × List StreamPkt × List Package)
round now arrival r = react arrival (deliver_due now r)

abbrev pub prepend_all :
    List StreamPkt → Option (Receiver × List StreamPkt) → Option (Receiver × List StreamPkt)
prepend_all out none = none
prepend_all out (some (r, more)) = some (r, out ++ more)

-- What the rounds of a run hand over, and the state after them.
abbrev pub and_then :
    (Receiver → Option (Receiver × List StreamPkt))
    → Option (Receiver × List StreamPkt × List Package)
    → Option (Receiver × List StreamPkt)
and_then k none = none
and_then k (some (r, out, replies)) = prepend_all out (k r)

unfoldable pub run :
    List (Timeval × Option (Clocks × Package)) → Receiver → Option (Receiver × List StreamPkt)
run [] r = some (r, [])
run ((now, arrival) ∷ es) r = and_then (run es) (round now arrival r)
