-- ===== src/RealTime/Server.antt =====
-- p2/source/rt_srv.c: the sender of the real-time transport. `rcv_pkt` is one buffer, which holds in
-- turn what arrived, what is sent and what is sent again; `rcv_addr` is the address of the last datagram.
-- `size` is `WINDOW_SIZE`, from the request. `slide` holds the sending times plus the latency window.
-- The main loop is in Server/Loop, the report on a timeout and its timer in Server/Report.
pub mod Slide
pub mod Loop
pub mod Report
pub mod Counted
pub mod Resend
pub mod Addresses
mod Tests
use cs2520_2021spring.Common.{
  ℕ, zero, suc, ◌+◌, ◌%◌, Bool, true, false, ◌&&◌, ltb, ◌==◌, if◌then◌else◌, not, Option, none,
  some, List, [], ◌∷◌, ◌++◌, get_or, set, replicate,
}
use cs2520_2021spring.Common.Int.{ℤ, pos, negsuc, pos_part, ltb_ℤ, leb_ℤ, ◌==ℤ◌}
use cs2520_2021spring.Timeval.{Timeval, timeradd, cmp_time, zero_time}
use cs2520_2021spring.FileCopy.Message.{Addr}
use cs2520_2021spring.RealTime.Packet.{Package, nack_size}
use cs2520_2021spring.RealTime.Receiver.{blank}

pub record Server : Type 0 where
  pub size : ℕ
  pub latency_window : Timeval
  pub halfrtt : Timeval
  pub head : ℕ
  pub seq : ℕ
  pub window : List Package
  pub slide : List Timeval
  pub rcv_pkt : Package
  pub rcv_addr : Addr
  pub current_addr : Addr
  pub send_count : ℕ
  pub total_count : ℕ

-- What `sendto_dbg` is given.
pub record Out : Type 0 where
  pub to : Addr
  pub pkt : Package

-- 1 if the addresses are equal, otherwise -1. `ntohl` is one to one, so it is left out.
unfoldable pub cmp_addr : Addr → Addr → ℤ
cmp_addr a b =
    if not (a.port == b.port) then negsuc 0 else if not (a.ip == b.ip) then negsuc 0 else pos 1

-- The first request makes the connection: ten permissions, and the windows of its size, which hold what
-- `malloc` finds.
unfoldable pub accept :
    Timeval → Addr → Package → List Package → List Timeval → Option (Server × List Out)
accept now from p window slide =
    if p.kind ==ℤ pos 3
    then (let answer : Package = record p { kind = pos 4; receive_ts1 = now } in
        some (
          record {
            size = pos_part p.window_size;
            latency_window = p.latency_window;
            halfrtt = record { sec = pos 0; usec = pos 40000 };
            head = 1;
            seq = 1;
            window = window;
            slide = slide;
            rcv_pkt = answer;
            rcv_addr = from;
            current_addr = from;
            send_count = 0;
            total_count = 0;
          },
          replicate 10 (record { to = from; pkt = answer }),
        ))
    else none

-- A whole `stream_pkt` of the application is copied to the field `data`, which is 14 bytes shorter: the
-- last 12 bytes land in the three `int32_t` behind the field and its padding, `ack` and two of `nack`.
pub record AppPkt : Type 0 where
  pub content : List ℕ
  pub over_ack : ℤ
  pub over_nack0 : ℤ
  pub over_nack1 : ℤ

-- `rcv_pkt`, filled in for the data of the application.
abbrev pub data_pkt : Timeval → AppPkt → Server → Package
data_pkt now app s = record s.rcv_pkt {
  content = app.content;
  ack = app.over_ack;
  nack = set (set s.rcv_pkt.nack 0 app.over_nack0) 1 app.over_nack1;
  send_ts = now;
  kind = pos 0;
  seq = pos s.seq;
  n_send_ts = record { sec = negsuc 0; usec = negsuc 0 };
}

-- Data of the application: it is sent, kept, and its time is noted.
unfoldable pub on_app : Timeval → AppPkt → Server → Server × List Out
on_app now app s = (
  record s {
    send_count = s.send_count + 1;
    total_count = s.total_count + 1;
    rcv_pkt = data_pkt now app s;
    window = set s.window (s.seq % s.size) (data_pkt now app s);
    slide = set s.slide (s.seq % s.size) (timeradd now s.latency_window);
    seq = s.seq + 1;
  },
  record { to = s.rcv_addr; pkt = data_pkt now app s } ∷ [],
)

-- The packet may be sent again: it is behind the window's start, and its time has not passed.
unfoldable pub may_resend : Timeval → ℤ → Server → Bool
may_resend now lost s =
    not (lost ==ℤ negsuc 0)
    && leb_ℤ (pos s.head) lost
    && ltb_ℤ (negsuc 0) (cmp_time (get_or s.slide (pos_part lost % s.size) zero_time) now)

abbrev pub again : Timeval → ℤ → Server → Package
again sent lost s = record (get_or s.window (pos_part lost % s.size) blank) {
  kind = pos 6;
  n_send_ts = sent;
}

-- `for (i = 0; i < NACK_SIZE; i++)` with the rounds that are left, each with its readings of the
-- clock. The request is read from `rcv_pkt`, where a packet that was sent again lies from then on.
unfoldable pub resend : (ℕ → Timeval) → (ℕ → Timeval) → ℕ → ℕ → Server → Server × List Out
resend now sent zero i s = (s, [])
resend now sent (suc n) i s =
    let lost = get_or s.rcv_pkt.nack i (negsuc 0) in
    let p = again (sent i) lost s in
    let passed = resend now sent n (i + 1) s in
    let next =
      resend now sent n (i + 1) (record s { rcv_pkt = p; total_count = s.total_count + 1 }) in
    if may_resend (now i) lost s
    then (next.0, record { to = s.rcv_addr; pkt = p } ∷ next.1)
    else passed

-- An ACK: the round trip, the ACKACK, and the packets that are asked for.
unfoldable pub on_ack : Timeval → (ℕ → Timeval) → (ℕ → Timeval) → Server → Server × List Out
on_ack acked now sent s =
    let p : Package = record s.rcv_pkt { kind = pos 1; ackack_ts = acked } in
    let t = resend now sent nack_size 0 (record s { halfrtt = s.rcv_pkt.halfrtt; rcv_pkt = p }) in
    (t.0, record { to = s.rcv_addr; pkt = p } ∷ t.1)

-- A request during the connection: another address is declined.
unfoldable pub on_request : Timeval → Server → Server × List Out
on_request now s =
    let p : Package = record s.rcv_pkt { kind = pos 5; receive_ts1 = now } in
    if cmp_addr s.current_addr s.rcv_addr ==ℤ negsuc 0
    then (record s { rcv_pkt = p }, record { to = s.rcv_addr; pkt = p } ∷ [])
    else (s, [])

-- What the clock reads: for the ACKACK, for the refusal, and in each round over the numbers asked for.
pub record Clocks : Type 0 where
  pub acked : Timeval
  pub refused : Timeval
  pub now : ℕ → Timeval
  pub sent : ℕ → Timeval

abbrev pub arrive : Addr → Package → Server → Server
arrive from p s = record s { rcv_pkt = p; rcv_addr = from }

-- A datagram from the network. The second test reads `rcv_pkt` after the first branch, which leaves a
-- kind other than 3.
unfoldable pub on_network : Clocks → Addr → Package → Server → Server × List Out
on_network c from p s =
    let t = arrive from p s in
    let u = if p.kind ==ℤ pos 2 then on_ack c.acked c.now c.sent t else (t, []) in
    let v = if u.0.rcv_pkt.kind ==ℤ pos 3 then on_request c.refused u.0 else (u.0, []) in
    (v.0, u.1 ++ v.1)

-- The time of the slot and half the round trip have passed.
unfoldable pub is_expired : Timeval → ℕ → Server → Bool
is_expired now i s =
    ltb_ℤ (negsuc 0) (cmp_time now (timeradd (get_or s.slide (i % s.size) zero_time) s.halfrtt))

-- `for (i = head; i < head + WINDOW_SIZE; i++)`, where the body moves `head` too; `none` means that
-- the fuel ran out. `head` and `i` are `int`s in the source: this is the loop as long as they do not
-- overflow.
unfoldable pub slide_head : ℕ → Timeval → ℕ → Server → Option Server
slide_head zero now i s = none
slide_head (suc fuel) now i s =
    let next = slide_head fuel now (i + 1) (record s { head = s.head + 1 }) in
    if ltb i (s.head + s.size) && is_expired now i s then next else some s
