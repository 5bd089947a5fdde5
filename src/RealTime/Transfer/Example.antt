-- ===== src/RealTime/Transfer/Example.antt =====
-- A connection of p2/source/rt_srv.c and p2/source/rt_rcv.c, with windows of 100 packets.
use cs2520_2021spring.Common.{ℕ, ◌≡◌, refl, replicate, get_or, get_or-replicate, ap}
use cs2520_2021spring.Common.Int.{pos}
use cs2520_2021spring.Timeval.{zero_time}
use cs2520_2021spring.FileCopy.Message.{Addr}
use cs2520_2021spring.RealTime.Packet.{Package}
use cs2520_2021spring.RealTime.Receiver.{
  Receiver, Connect, connected, waiting, refused, init, size_of, on_answer, blank,
}
use cs2520_2021spring.RealTime.Server.{Server, accept}
use cs2520_2021spring.RealTime.Transfer.Channel.{Connected}

abbrev peer : Addr
peer = record { ip = 9; port = 10120 }

abbrev ask : Package
ask = record blank { kind = pos 3; window_size = pos 100 }

abbrev permit : Package
permit = record blank { kind = pos 4 }

abbrev pub idle_server : Server
idle_server = record {
  size = 100;
  latency_window = zero_time;
  halfrtt = record { sec = pos 0; usec = pos 40000 };
  head = 1;
  seq = 1;
  window = replicate 100 blank;
  slide = replicate 100 zero_time;
  rcv_pkt = record ask { kind = pos 4; receive_ts1 = zero_time };
  rcv_addr = peer;
  current_addr = peer;
  send_count = 0;
  total_count = 0;
}

abbrev pub receiver_of : Connect → Receiver
receiver_of (waiting r) = r
receiver_of (connected r) = r
receiver_of refused = init 0 (replicate 100 blank) blank

abbrev pub started : Receiver
started = receiver_of (on_answer zero_time permit (init 0 (replicate 100 blank) blank))

zero_seq : (n j : ℕ) → (get_or (replicate n blank) j blank).seq ≡ pos 0
zero_seq n j = ap (λ p. p.seq) (get_or-replicate {A = Package} n j blank)

pub link : Connected idle_server started
unfolding on_answer accept size_of
link = record {
  ms = 0;
  echo = blank;
  receiver_window = replicate 100 blank;
  answered = zero_time;
  permission = permit;
  from = peer;
  asked = ask;
  accepted = zero_time;
  server_window = replicate 100 blank;
  times = replicate 100 zero_time;
  outs =
      replicate 10
        (record { to = peer; pkt = record ask { kind = pos 4; receive_ts1 = zero_time } });
  window_len = refl;
  fresh_pages = zero_seq 100;
  admitted = refl;
  accepts = refl;
}
