-- ===== src/RealTime/Packet.antt =====
-- p2/source/udp_stream_common.h: the packets and the limits.
use cs2520_2021spring.Common.{ℕ, List}
use cs2520_2021spring.Common.Int.{ℤ}
use cs2520_2021spring.Timeval.{Timeval}

abbrev pub nack_size : ℕ
nack_size = 10

abbrev pub record_size : ℕ
record_size = 100

-- `struct package`. The kinds are: 0 data, 1 ACKACK, 2 ACK, 3 request, 4 permission, 5 decline, 6 data
-- that was asked for again.
pub record Package : Type 0 where
  pub kind : ℤ
  pub seq : ℤ
  pub content : List ℕ
  pub ack : ℤ
  pub nack : List ℤ
  pub send_ts : Timeval
  pub n_send_ts : Timeval
  pub receive_ts1 : Timeval
  pub ackack_ts : Timeval
  pub latency_window : Timeval
  pub window_size : ℤ
  pub halfrtt : Timeval

-- `struct stream_pkt`, as the receiver hands it to its application.
pub record StreamPkt : Type 0 where
  pub seq : ℤ
  pub ts : Timeval
  pub content : List ℕ
