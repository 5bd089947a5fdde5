-- ===== src/RealTime/Usage.antt =====
-- The command lines of p2/source: `Usage` of rt_srv.c, rt_rcv.c, udp_stream.c and udp_stream_rcv.c. The
-- products are unbounded, where the program's are in `int`.
use cs2520_2021spring.Common.{ℕ, ◌≡◌, refl, Bool, ◌==◌, List, [], ◌∷◌, ◌++◌, All, arith}
use cs2520_2021spring.Common.Int.{ℤ, pos, ◌+ℤ◌, ◌-ℤ◌, ◌*ℤ◌, ◌/ℤ◌}
use cs2520_2021spring.Common.Text.{
  strtok, strtok-append, strtok-decimal, Plain, IsDigit, decimal, atoi, atoi-decimal, scan_int,
  scan_int-decimal, Outcome, exits, undefined, parsed, next_token, next_int,
}
use cs2520_2021spring.Timeval.{Timeval}
use cs2520_2021spring.RealTime.Receiver.{window_of, size_of}

abbrev pub colon : ℕ
colon = 58

abbrev pub is_colon : ℕ → Bool
is_colon c = c == colon

-- rt_srv
pub record ServerArguments : Type 0 where
  pub loss_rate : ℤ
  pub app_port : ℤ
  pub client_port : ℤ

unfoldable pub srv_usage : List (List ℕ) → Outcome ServerArguments
srv_usage (program ∷ loss ∷ app ∷ client ∷ []) =
    parsed (record { loss_rate = atoi loss; app_port = atoi app; client_port = atoi client })
srv_usage argv = exits

-- rt_rcv, with what it computes from the latency window
pub record ReceiverArguments : Type 0 where
  pub loss_rate : ℤ
  pub server_ip : List ℕ
  pub server_port : ℤ
  pub app_port : ℤ
  pub latency_window : Timeval
  pub window_size : ℤ

abbrev window : ℤ → Timeval
window time = let s = time /ℤ 1000 in record { sec = s; usec = (time -ℤ s *ℤ pos 1000) *ℤ pos 1000 }

abbrev size : ℤ → ℤ
size time = time *ℤ pos 25 /ℤ 14 +ℤ pos 100

unfoldable pub rcv_usage : List (List ℕ) → Outcome ReceiverArguments
rcv_usage (program ∷ loss ∷ server ∷ app ∷ latency ∷ []) =
    next_token undefined (strtok is_colon server) (λ ip after_ip.
      next_token undefined (strtok is_colon after_ip) (λ port rest. parsed (record {
        loss_rate = atoi loss;
        server_ip = ip;
        server_port = atoi port;
        app_port = atoi app;
        latency_window = window (atoi latency);
        window_size = size (atoi latency);
      })))
rcv_usage argv = exits

-- udp_stream
pub record StreamArguments : Type 0 where
  pub target_ip : List ℕ
  pub port : ℤ
  pub num_msgs : ℤ

unfoldable pub stream_usage : List (List ℕ) → Outcome StreamArguments
stream_usage (program ∷ target ∷ msgs ∷ []) =
    next_token exits (strtok is_colon target) (λ ip after_ip.
      next_token exits (strtok is_colon after_ip) (λ port rest.
        next_int (scan_int msgs)
          (λ n. parsed (record { target_ip = ip; port = atoi port; num_msgs = n }))))
stream_usage argv = exits

-- udp_stream_rcv, with its port
unfoldable pub stream_rcv_usage : List (List ℕ) → Outcome ℤ
stream_rcv_usage (program ∷ port ∷ []) = next_int (scan_int port) parsed
stream_rcv_usage argv = exits

-- `<ip_address>:<port>`
abbrev pub address : List ℕ → ℕ → List ℕ
address ip port = ip ++ (colon ∷ decimal port)

digit-IsPlain : (c : ℕ) → IsDigit c → Plain is_colon c
digit-IsPlain c h = ground (arith, h)

window-pos : (ms : ℕ) → window (pos ms) ≡ window_of ms
unfolding window_of ◌/ℤ◌ ◌*ℤ◌ ◌-ℤ◌
window-pos ms = ground arith

size-pos : (ms : ℕ) → size (pos ms) ≡ pos (size_of ms)
unfolding size_of ◌/ℤ◌ ◌*ℤ◌ ◌+ℤ◌
size-pos ms = ground arith

pub rcv_usage-reads :
    (program : List ℕ) (loss i : ℕ) (ip : List ℕ) (port app ms : ℕ)
    → All (Plain is_colon) (i ∷ ip)
    → rcv_usage (program ∷ decimal loss ∷ address (i ∷ ip) port ∷ decimal app ∷ decimal ms ∷ [])
      ≡ parsed (record {
        loss_rate = pos loss;
        server_ip = i ∷ ip;
        server_port = pos port;
        app_port = pos app;
        latency_window = window_of ms;
        window_size = pos (size_of ms);
      })
unfolding rcv_usage
rcv_usage-reads program loss i ip port app ms h =
    rw
      (
        strtok-append is_colon i ip (decimal port) colon h refl,
        strtok-decimal is_colon port digit-IsPlain,
        atoi-decimal loss,
        atoi-decimal port,
        atoi-decimal app,
        atoi-decimal ms,
        window-pos ms,
        size-pos ms,
      )
      refl

-- The same for the program that makes the stream.
pub stream_usage-reads :
    (program : List ℕ) (i : ℕ) (ip : List ℕ) (port msgs : ℕ)
    → All (Plain is_colon) (i ∷ ip)
    → stream_usage (program ∷ address (i ∷ ip) port ∷ decimal msgs ∷ [])
      ≡ parsed (record { target_ip = i ∷ ip; port = pos port; num_msgs = pos msgs })
unfolding stream_usage
stream_usage-reads program i ip port msgs h =
    rw
      (
        strtok-append is_colon i ip (decimal port) colon h refl,
        strtok-decimal is_colon port digit-IsPlain,
        scan_int-decimal msgs,
        atoi-decimal port,
      )
      refl
