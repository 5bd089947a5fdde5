-- ===== src/FileCopy/Receiver.antt =====
-- p1/source/rcv.c: the receiver of the UDP file copy. One function for each branch of the main loop;
-- a handler returns the new state and the messages that it sends, and `none` is `exit(0)`.
-- `C_ack`, `NACKTime` and the counters only count up from 0 (`buffersize` goes down only where the
-- loop has tested it), so they are natural numbers; the wrap of an `int` after 2^31 packets is left
-- out. The times that are only printed are left out. A reply is its header: the text that `strlen` finds
-- behind it in `echo_mess_buf` is never written.
pub mod Slots
pub mod Frame
pub mod Expected
pub mod Seated
pub mod Invariant
pub mod Delivery
pub mod Replies
use cs2520_2021spring.Common.{
  ℕ, zero, suc, ◌+◌, ◌-◌, ◌%◌, ◌^◌, Bool, true, false, not, ◌&&◌, ◌||◌, ltb, ◌==◌, if◌then◌else◌,
  Option, none, some, List, [], ◌∷◌, ◌++◌, get_or, set, replicate,
}
use cs2520_2021spring.Common.Int.{ℤ, pos, negsuc, pos_part, ltb_ℤ, leb_ℤ, ◌==ℤ◌}
use cs2520_2021spring.Common.Bytes.{overwrite, cstr, bzero}
use cs2520_2021spring.Timeval.{Timeval, timersub, zero_time}
use cs2520_2021spring.FileCopy.Message.{
  Header, Message, Datagram, Addr, same_addr, window_size, nack_size, tmb, chunk_len, ack_t_usec,
}

pub record Receiver : Type 0 where
  pub has_sender : Bool
  pub from_addr : Addr
  pub current : Addr
  pub c_ack : ℕ
  pub last_ack : ℤ
  pub nack_time : ℕ
  pub buffersize : ℕ
  pub buffer : List ℕ
  pub window : List Message
  pub mess : Message
  pub echo : Header
  pub ack_timeout : Timeval
  pub totalbytes : ℕ
  pub i_tmb : ℕ
  pub file_name : List ℕ
  pub file : List ℕ

-- `sendto_dbg` may drop a message, `sendto` hands it over.
pub data Out : Type 0 where
  lossy : Addr → Header → Out
  direct : Addr → Header → Out

-- What a slot that was never written holds does not matter.
abbrev pub blank : Message
blank = record { hdr = record { cack = pos 0; nack = []; seq = pos 0 }; text = [] }

abbrev pub no_nacks : List ℤ
no_nacks = replicate nack_size (negsuc 0)

-- The state before the first message: what the buffers hold is whatever the stack held.
unfoldable pub init : Message → Header → List Message → Receiver
init mess echo window = record {
  has_sender = false;
  from_addr = record { ip = 0; port = 0 };
  current = record { ip = 2 ^ 32 - 1; port = 2 ^ 16 - 1 };
  c_ack = 0;
  last_ack = negsuc 0;
  nack_time = 0;
  buffersize = 0;
  buffer = replicate window_size 0;
  window = window;
  mess = mess;
  echo = echo;
  ack_timeout = zero_time;
  totalbytes = 0;
  i_tmb = 0;
  file_name = [];
  file = [];
}

-- The timer of the packet `C_ack + 1` has run for more than `ACK_T_USEC`.
unfoldable pub timer_due : Timeval → Receiver → Bool
timer_due now r =
    let diff = timersub now r.ack_timeout in
    r.has_sender
    && (leb_ℤ (pos 1) diff.sec || (diff.sec ==ℤ pos 0 && ltb_ℤ (pos ack_t_usec) diff.usec))

abbrev pub timer_request : Receiver → Header
timer_request r = record r.echo {
  cack = pos r.c_ack;
  nack = pos (r.c_ack + 1) ∷ replicate (nack_size - 1) (negsuc 0);
}

-- Then the receiver asks for that packet. `sent` is the clock after the request.
unfoldable pub check_timer : Timeval → Timeval → Receiver → Receiver × List Out
check_timer now sent r =
    if timer_due now r
    then (
      record r { echo = timer_request r; ack_timeout = sent },
      lossy r.from_addr (timer_request r) ∷ [],
    )
    else (r, [])

-- The first packet of a session carries the file's name.
unfoldable pub start_session : Bool → Addr → Receiver → Option (Receiver × List Out)
start_session opened from r =
    let greeting : Header = record r.echo { cack = pos 0 } in
    if opened
    then some (
      record r {
        current = from;
        file_name = cstr r.mess.text;
        file = [];
        echo = greeting;
        has_sender = true;
        c_ack = 0;
        last_ack = negsuc 0;
        nack_time = 0;
        buffersize = 0;
        buffer = replicate window_size 0;
        totalbytes = 0;
        i_tmb = 0;
      },
      direct from greeting ∷ [],
    )
    else none

unfoldable pub decline : Addr → Receiver → Receiver × List Out
decline from r =
    let refusal : Header = record r.echo { cack = negsuc 0 } in
    (record r { echo = refusal }, direct from refusal ∷ [])

-- Every packet is counted as `chunk_len` bytes; `i_TMB` counts the tens of megabytes.
unfoldable pub account : Receiver → Receiver
account r =
    let t = r.totalbytes + chunk_len in
    let full = ltb tmb t in
    record r {
      totalbytes = if full then t - tmb else t;
      i_tmb = if full then r.i_tmb + 1 else r.i_tmb;
    }

-- `fprintf(fw, "%s", data_buf); bzero(data_buf, sizeof(data_buf))`: the `sizeof` is a pointer's.
unfoldable pub write_current : Receiver → Receiver
write_current r = record r {
  file = r.file ++ cstr r.mess.text;
  mess = record r.mess { text = bzero 8 r.mess.text };
}

-- The cumulative acknowledgement that ends both branches of an expected packet.
unfoldable pub acknowledge : Receiver → Receiver × List Out
acknowledge r =
    let ack : Header = record r.echo { cack = pos r.c_ack; nack = no_nacks } in
    (record r { last_ack = pos r.c_ack; nack_time = 0; echo = ack }, lossy r.from_addr ack ∷ [])

-- The expected packet, with nothing buffered.
unfoldable pub deliver_alone : Receiver → Receiver × List Out
unfolding write_current account acknowledge
deliver_alone r = acknowledge (write_current (account (record r { c_ack = r.c_ack + 1 })))

-- One round of the search: the packet in slot `j % WINDOW_SIZE` goes to the file.
unfoldable pub take_buffered : ℕ → Receiver → Receiver
unfolding account
take_buffered j r =
    let i = j % window_size in
    let m = get_or r.window i blank in
    let s = account (record r {
      c_ack = r.c_ack + 1;
      buffer = set r.buffer i 0;
      buffersize = r.buffersize - 1;
    }) in
    record s {
      file = s.file ++ cstr m.text;
      window = set s.window i (record m { text = bzero 8 m.text });
    }

-- `for (j = …; j < … && buffersize > 0; j++)` with the rounds that are left.
unfoldable pub drain : ℕ → ℕ → Receiver → Receiver
drain zero j r = r
drain (suc n) j r =
    let rest = drain n (j + 1) (take_buffered j r) in
    if ltb 0 r.buffersize && get_or r.buffer (j % window_size) 0 == 1 then rest else r

-- The expected packet, with packets buffered: `j` runs from `temp + 2` up to `temp + WINDOW_SIZE`.
unfoldable pub deliver_and_drain : Receiver → Receiver × List Out
unfolding write_current account acknowledge
deliver_and_drain r =
    let s = write_current (account r) in
    acknowledge (drain (window_size - 1) (r.c_ack + 2) (record s { c_ack = r.c_ack + 1 }))

-- The requests behind the first: the places `i < NACK_SIZE` for the packets `j < seq`.
unfoldable pub fill_nacks : ℕ → ℕ → ℕ → ℕ → List ℕ → List ℤ → List ℤ
fill_nacks zero i j seq buffer nack = nack
fill_nacks (suc n) i j seq buffer nack =
    if ltb j seq
    then fill_nacks n (i + 1) (j + 1) seq buffer
        (if get_or buffer (j % window_size) 0 == 0 then set nack i (pos j) else nack)
    else nack

-- At most three requests are sent for one value of `C_ack`.
unfoldable pub may_request : Receiver → Bool
may_request r =
    not (r.last_ack ==ℤ pos r.c_ack) || (r.last_ack ==ℤ pos r.c_ack && ltb r.nack_time 2)

unfoldable pub nack_request : ℕ → Receiver → Header
unfolding fill_nacks
nack_request seq r = record r.echo {
  cack = pos r.c_ack;
  nack =
      fill_nacks (nack_size - 1) 1 (r.c_ack + 2) seq r.buffer (set no_nacks 0 (pos (r.c_ack + 1)));
}

unfoldable pub request_missing : ℕ → Receiver → Receiver × List Out
unfolding may_request nack_request
request_missing seq r =
    let again = r.last_ack ==ℤ pos r.c_ack in
    if may_request r
    then (
      record r {
        nack_time = if again then r.nack_time + 1 else 0;
        last_ack = if again then r.last_ack else pos r.c_ack;
        echo = nack_request seq r;
      },
      lossy r.from_addr (nack_request seq r) ∷ [],
    )
    else (r, [])

unfoldable pub store_early : ℕ → Receiver → Receiver
store_early seq r = record r {
  buffer = set r.buffer (seq % window_size) 1;
  buffersize = r.buffersize + 1;
  window = set r.window (seq % window_size) r.mess;
}

-- A packet ahead of the expected one is kept, if its slot is free.
unfoldable pub buffer_early : ℕ → Receiver → Receiver × List Out
buffer_early seq r =
    if get_or r.buffer (seq % window_size) 0 == 0
    then request_missing seq (store_early seq r)
    else (r, [])

-- A packet of the current sender that does not end the session. `pos_part` is exact where it is
-- used, behind the test that `seq` is not negative.
unfoldable pub on_data : Receiver → Receiver × List Out
on_data r =
    let seq = r.mess.hdr.seq in
    let s : Receiver = record r { ack_timeout = zero_time } in
    if seq ==ℤ pos (s.c_ack + 1)
    then (if s.buffersize == 0 then deliver_alone s else deliver_and_drain s)
    else if leb_ℤ (pos (s.c_ack + 2)) seq && leb_ℤ seq (pos (s.c_ack + 1 + window_size))
    then buffer_early (pos_part seq) s
    else (s, [])

-- `recvfrom` fills the receive buffer and the address of the last sender.
abbrev pub arrive : Addr → Datagram → Receiver → Receiver
arrive from d r = record r {
  from_addr = from;
  mess = record { hdr = d.hdr; text = overwrite r.mess.text d.payload };
}

-- `opened` is the answer of `fopen`, should it be called.
unfoldable pub receive : Bool → Addr → Datagram → Receiver → Option (Receiver × List Out)
receive opened from d r =
    let s = arrive from d r in
    if not s.has_sender
    then (if d.hdr.seq ==ℤ pos 0 then start_session opened from s else some (s, []))
    else if not (same_addr s.current from)
    then some (decline from s)
    else if d.hdr.seq ==ℤ negsuc 0
    then some (record s { has_sender = false }, [])
    else some (on_data s)

-- One round of the main loop: the clocks that it reads, and what `select` and `recvfrom` bring.
pub record Round : Type 0 where
  pub now : Timeval
  pub sent : Timeval
  pub opened : Bool
  pub arrival : Option (Addr × Datagram)

unfoldable pub on_arrival :
    Bool → Option (Addr × Datagram) → Receiver → Option (Receiver × List Out)
on_arrival opened none r = some (r, [])
on_arrival opened (some (from, d)) r = receive opened from d r

abbrev pub after : List Out → Option (Receiver × List Out) → Option (Receiver × List Out)
after out none = none
after out (some (r, more)) = some (r, out ++ more)

unfoldable pub round : Round → Receiver → Option (Receiver × List Out)
round e r = let t = check_timer e.now e.sent r in after t.1 (on_arrival e.opened e.arrival t.0)

abbrev pub and_then :
    (Receiver → Option (Receiver × List Out))
    → Option (Receiver × List Out)
    → Option (Receiver × List Out)
and_then k none = none
and_then k (some (s, out)) = after out (k s)

-- The main loop over the rounds that happen; `none` is `exit(0)`.
unfoldable pub run : List Round → Receiver → Option (Receiver × List Out)
run [] r = some (r, [])
run (e ∷ es) r = and_then (run es) (round e r)
