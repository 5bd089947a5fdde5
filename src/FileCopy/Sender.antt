-- ===== src/FileCopy/Sender.antt =====
-- p1/source/ncp.c: the sender of the UDP file copy, from its first full window on, and the handshake
-- before it. A handler returns the new state, the datagrams that it sends, and whether the program
-- goes on. `read` on the source file, a regular file, returns full blocks up to the end.
-- Left out: the count of all bytes sent (`allbytes`, `ii_TMB`), which is only printed and takes
-- `strlen` of a message with its binary header, and the times that are only printed.
pub mod Invariant
pub mod Rounds
pub mod Ended
pub mod Bounds
pub mod Reads
pub mod Channel
pub mod Ending
mod Tests
use cs2520_2021spring.Common.{
  ℕ, zero, suc, ◌+◌, ◌-◌, ◌%◌, Bool, true, false, ◌&&◌, ◌||◌, ltb, leb, ◌==◌, if◌then◌else◌, Option,
  none, some, List, [], ◌∷◌, ◌++◌, get_or, set, take, drop, length,
}
use cs2520_2021spring.Common.Int.{ℤ, pos, negsuc, pos_part, sub_ℕ, ltb_ℤ, leb_ℤ, ◌==ℤ◌}
use cs2520_2021spring.Common.Bytes.{overwrite, cstr}
use cs2520_2021spring.Timeval.{Timeval}
use cs2520_2021spring.FileCopy.Message.{Header, Message, Datagram, window_size, tmb, chunk_len}

pub record Sender : Type 0 where
  pub head : ℕ
  pub tail : ℕ
  pub seq : ℕ
  pub eof : Bool
  pub window : List Message
  pub mess : Message
  pub source : List ℕ
  pub totalbytes : ℕ
  pub i_tmb : ℕ

-- `sendto_dbg` may drop a datagram, `sendto` hands it over.
pub data Out : Type 0 where
  lossy : Datagram → Out
  direct : Datagram → Out

-- What the program does next: the loop goes on, or `exit(0)`.
pub data Next : Type 0 where
  go_on finished : Next

abbrev pub Result : Type 0
Result = Sender × List Out × Next

abbrev pub blank : Message
blank = record { hdr = record { cack = pos 0; nack = []; seq = pos 0 }; text = [] }

-- `sizeof(uhdr) + strlen(data_buf)` bytes of the message buffer.
abbrev pub short_datagram : Message → Datagram
short_datagram m = record { hdr = m.hdr; payload = cstr m.text }

-- All `sizeof(window[i])` bytes of a slot.
abbrev pub whole_datagram : Message → Datagram
whole_datagram m = record { hdr = m.hdr; payload = m.text }

-- `read` into the message buffer, the NUL behind it, and the byte counters.
unfoldable pub read_chunk : Sender → Sender
read_chunk s =
    let block = take chunk_len s.source in
    let t = s.totalbytes + length block in
    let full = ltb tmb t in
    record s {
      mess = record s.mess { text = overwrite s.mess.text (block ++ 0 ∷ []) };
      source = drop chunk_len s.source;
      totalbytes = if full then t - tmb else t;
      i_tmb = if full then s.i_tmb + 1 else s.i_tmb;
    }

-- `hdr->seq = seq++`
unfoldable pub stamp : Sender → Sender
stamp s = record s {
  mess = record s.mess { hdr = record s.mess.hdr { seq = pos s.seq } };
  seq = s.seq + 1;
}

-- The message buffer is kept in the slot of the packet `i`.
unfoldable pub keep : ℕ → Sender → Sender
keep i s = record s { window = set s.window (i % window_size) s.mess }

-- The first window: `for (i = head; i <= tail; i++)`, with the rounds that are left.
unfoldable pub fill_window : ℕ → ℕ → Sender → Sender × List Out
fill_window zero i s = (s, [])
fill_window (suc n) i s =
    let t = stamp (read_chunk s) in
    let (u, out) = fill_window n (i + 1) (keep i t) in (u, lossy (short_datagram t.mess) ∷ out)

-- The state before the first window: `seq` is 1 after the handshake.
unfoldable pub init : Message → List Message → List ℕ → Sender
init mess window source = record {
  head = 1;
  tail = window_size;
  seq = 1;
  eof = false;
  window = window;
  mess = mess;
  source = source;
  totalbytes = 0;
  i_tmb = 0;
}

unfoldable pub start : Message → List Message → List ℕ → Sender × List Out
start mess window source = fill_window window_size 1 (init mess window source)

-- The last datagram of a transfer carries `seq = -1`.
unfoldable pub finish : Sender → Result
finish s =
    let m : Message = record s.mess { hdr = record s.mess.hdr { seq = negsuc 0 } } in
    (record s { mess = m }, direct (short_datagram m) ∷ [], finished)

-- The packets that the receiver misses, up to the first -1: those inside the window are sent again.
unfoldable pub resend_nacks : List ℤ → Sender → List Out
resend_nacks [] s = []
resend_nacks (negsuc k ∷ ns) s = []
resend_nacks (pos n ∷ ns) s =
    let rest = resend_nacks ns s in
    if leb s.head n && leb n s.tail
    then lossy (whole_datagram (get_or s.window (n % window_size) blank)) ∷ rest
    else rest

-- One round of the shift: the next block is read, stored behind `tail` and sent.
unfoldable pub send_next : Sender → Sender × Out
send_next s =
    let t = stamp (read_chunk s) in
    let u = keep (s.tail + 1) t in
    (
      record u {
        eof = if ltb (length (take chunk_len s.source)) chunk_len then true else s.eof;
        head = s.head + 1;
        tail = s.tail + 1;
      },
      lossy (short_datagram t.mess),
    )

-- `for (i = head; i < received_ack + 1; i++)` with the rounds that are left; the end of the file
-- ends it.
unfoldable pub shift : ℕ → ℕ → Sender → Sender × List Out
shift zero ack s = (s, [])
shift (suc n) ack s =
    let (t, o) = send_next s in
    let rest = shift n ack t in
    if t.eof then (record t { head = ack + 1 }, o ∷ []) else (rest.0, o ∷ rest.1)

unfoldable pub slide : ℕ → Sender → Sender × List Out
slide ack s = if s.eof then (record s { head = ack + 1 }, []) else shift (ack + 1 - s.head) ack s

-- `recvfrom` fills the message buffer.
abbrev pub arrive : Datagram → Sender → Sender
arrive d s = record s { mess = record { hdr = d.hdr; text = overwrite s.mess.text d.payload } }

-- Everything is sent, and the acknowledgement or the window says that it has arrived.
unfoldable pub is_done : ℤ → Sender → Bool
is_done ack s = s.eof && (leb_ℤ (pos s.tail) ack || leb s.tail s.head)

abbrev pub continue : Sender × List Out → Result
continue (s, out) = (s, out, go_on)

unfoldable pub on_response : Datagram → Sender → Result
on_response d s =
    let t = arrive d s in
    let ack = d.hdr.cack in
    if is_done ack t
    then finish t
    else if ltb_ℤ ack (sub_ℕ t.head 1)
    then (t, [], go_on)
    else if ack ==ℤ sub_ℕ t.head 1
    then (t, resend_nacks d.hdr.nack t, go_on)
    else if leb_ℤ (pos t.head) ack
    then continue (slide (pos_part ack) t)
    else (t, [], go_on)

-- `for (i = head; i <= tail; i++)` with the rounds that are left.
unfoldable pub resend_window : ℕ → ℕ → Sender → List Out
resend_window zero i s = []
resend_window (suc n) i s =
    lossy (whole_datagram (get_or s.window (i % window_size) blank)) ∷ resend_window n (i + 1) s

unfoldable pub on_timeout : Sender → Result
on_timeout s =
    if s.head == s.tail then finish s else (s, resend_window (s.tail + 1 - s.head) s.head s, go_on)

-- One round of the main loop: `select` watches the socket and the file, and answers how many of them
-- are ready; the datagram is what `recvfrom` would give.
unfoldable pub round : ℕ → Option Datagram → Sender → Result
round num none s = if num == 2 then (s, [], go_on) else on_timeout s
round num (some d) s = if num == 2 then on_response d s else on_timeout s

-- The handshake: the name goes out until an answer has `cack = 0`.
pub record Handshake : Type 0 where
  pub filename_send : Bool
  pub mess : Message

unfoldable pub handshake_receive : Option Datagram → Handshake → Handshake
handshake_receive none h = h
handshake_receive (some d) h = record h {
  filename_send = if d.hdr.cack ==ℤ pos 0 then true else h.filename_send;
  mess = record { hdr = d.hdr; text = overwrite h.mess.text d.payload };
}

-- `diff` is the time since the name was last sent.
unfoldable pub handshake : Option Datagram → Timeval → Handshake → Handshake × List Out
handshake d diff h =
    let t = handshake_receive d h in
    let m : Message = record t.mess { hdr = record t.mess.hdr { seq = pos 0 } } in
    if leb_ℤ (pos 1) diff.usec
    then (record t { mess = m }, direct (whole_datagram m) ∷ [])
    else (t, [])
