-- ===== src/FileCopy/Message.antt =====
-- p1/source/net_include.h: the header of every packet, and the limits.
use cs2520_2021spring.Common.{ℕ, Bool, ◌&&◌, ◌==◌, List}
use cs2520_2021spring.Common.Int.{ℤ}

abbrev pub max_mess_len : ℕ
max_mess_len = 1400

abbrev pub window_size : ℕ
window_size = 100

abbrev pub nack_size : ℕ
nack_size = 3

abbrev pub tmb : ℕ
tmb = 10_000_000

abbrev pub ack_t_usec : ℕ
ack_t_usec = 60

-- `sizeof(uhdr)` on the 64-bit machines of the course: five `int`s, padded, and a `struct timeval`.
abbrev pub header_len : ℕ
header_len = 40

-- The text of one packet: `sizeof(mess_buf) - sizeof(uhdr) - 1`.
abbrev pub chunk_len : ℕ
chunk_len = 1359

-- `uhdr`. Its time stamp is never written or read.
pub record Header : Type 0 where
  pub cack : ℤ
  pub nack : List ℤ
  pub seq : ℤ

-- A whole message buffer: the header, and the `max_mess_len - header_len` bytes behind it.
pub record Message : Type 0 where
  pub hdr : Header
  pub text : List ℕ

-- A datagram: the header, and as many bytes as were sent.
pub record Datagram : Type 0 where
  pub hdr : Header
  pub payload : List ℕ

-- An IPv4 address and a port, as bit patterns.
pub record Addr : Type 0 where
  pub ip : ℕ
  pub port : ℕ

abbrev pub same_addr : Addr → Addr → Bool
same_addr a b = a.ip == b.ip && a.port == b.port
