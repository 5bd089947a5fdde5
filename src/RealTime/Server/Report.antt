-- ===== src/RealTime/Server/Report.antt =====
-- p2/source/rt_srv.c: its reports, and the counts that they print.
use cs2520_2021spring.Common.{ℕ, ◌*◌, ◌==◌, if◌then◌else◌, Option, none, some}
use cs2520_2021spring.Common.Int.{wrap, ℤ, pos, ◌+ℤ◌, ◌-ℤ◌, ◌*ℤ◌}
use cs2520_2021spring.Common.Double.{Double}
use cs2520_2021spring.Timeval.{Timeval, timeradd, timersub, million}
use cs2520_2021spring.RealTime.Server.{Server}

pub record Monitor : Type 0 where
  pub start_ts : Timeval
  pub next_report_time : Timeval

pub record Report {ℓ} (W : Type ℓ) : Type ℓ where
  pub elapsed : W
  pub megabytes : W
  pub sent : ℕ
  pub rate : W
  pub packet_rate : W
  pub highest : ℕ
  pub retransmissions : ℤ

abbrev report_interval : Timeval
report_interval = record { sec = pos 5; usec = pos 0 }

-- How long `select` waits; `none` is `NULL`.
unfoldable pub timeout : Timeval → Server → Monitor → Option Timeval
timeout now s m = if s.send_count == 0 then none else some (timersub m.next_report_time now)

-- The first packet of the application starts the time; the count is the one before it.
unfoldable pub on_first : Timeval → ℕ → Monitor → Monitor
on_first started n m =
    if n == 0
    then record { start_ts = started; next_report_time = timeradd started report_interval }
    else m

unfoldable pub on_silence : Monitor → Monitor
on_silence m = record m { next_report_time = timeradd m.next_report_time report_interval }

-- `total_count-send_count`
unfoldable pub retransmissions : Server → ℤ
retransmissions s = pos s.total_count -ℤ pos s.send_count

module _ {ℓ} {W : Type ℓ} ⦃d : Double W⦄ where
  unfoldable pub report : Timeval → Server → Monitor → Report W
  report now s m =
      let duration =
        d.of_int ((now.sec -ℤ m.start_ts.sec) *ℤ pos million +ℤ (now.usec -ℤ m.start_ts.usec)) in
      record {
        elapsed = d.div duration (d.of_int (pos million));
        megabytes = d.div (d.of_int (wrap (pos (s.send_count * 1350)))) (d.of_int (pos million));
        sent = s.send_count;
        rate = d.div (d.of_int (wrap (pos (1350 * s.send_count * 8)))) duration;
        packet_rate = d.div (d.mul (d.of_int (pos s.send_count)) (d.of_int (pos million))) duration;
        highest = s.send_count;
        retransmissions = retransmissions s;
      }
