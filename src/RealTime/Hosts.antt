-- ===== src/RealTime/Hosts.antt =====
-- The addresses that the programs of p2/source send to and listen on. `gethostbyname` is a parameter: the
-- first address that it finds for a name, or nothing, where the programs end.
use cs2520_2021spring.Common.{ℕ, ◌<◌, ◌≡◌, refl, Option, some, List, [], ◌∷◌, All}
use cs2520_2021spring.Common.Hosts.{port_of, port_of-small, any, with_host, from_usage}
use cs2520_2021spring.Common.Text.{decimal, Plain, atoi-decimal}
use cs2520_2021spring.FileCopy.Message.{Addr}
use cs2520_2021spring.RealTime.Usage.{
  ServerArguments, ReceiverArguments, StreamArguments, srv_usage, rcv_usage, stream_usage, is_colon,
  address, rcv_usage-reads, stream_usage-reads,
}

-- "127.0.0.1"
abbrev pub local_ip : List ℕ
local_ip = 49 ∷ 50 ∷ 55 ∷ 46 ∷ 48 ∷ 46 ∷ 48 ∷ 46 ∷ 49 ∷ []

-- rt_srv.c: where it listens.
pub record Names : Type 0 where
  pub app : Addr
  pub rcv : Addr

unfoldable pub names : ServerArguments → Names
names a = record {
  app = record { ip = any; port = port_of a.app_port };
  rcv = record { ip = any; port = port_of a.client_port };
}

-- rt_rcv.c: the server, and the application that gets the data.
pub record Addresses : Type 0 where
  pub sender : Addr
  pub localapp : Addr

module _ (gethostbyname : List ℕ → Option ℕ) where
  -- Behind the second lookup, `h_ent` of the first is read again.
  unfoldable pub addresses : ReceiverArguments → Option Addresses
  addresses a = with_host (gethostbyname a.server_ip) (λ host_num.
      with_host (gethostbyname local_ip) (λ local_found. some (record {
        sender = record { ip = host_num; port = port_of a.server_port };
        localapp = record { ip = host_num; port = port_of a.app_port };
      })))

  -- udp_stream.c
  unfoldable pub send_addr : StreamArguments → Option Addr
  send_addr a =
      with_host (gethostbyname a.target_ip)
        (λ host_num. some (record { ip = host_num; port = port_of a.port }))

-- With command lines written as their usage messages ask, the same port for the two programs, ports below
-- 65536, and names that are found: rt_rcv talks to the port that rt_srv listens on, and udp_stream, given the
-- same server, sends to the port that rt_srv listens on for its application; but what rt_rcv hands over
-- goes to the server's address, whatever `127.0.0.1` is found as.
pub addresses_lem :
    (gethostbyname : List ℕ → Option ℕ) (program : List ℕ) (i : ℕ) (ip : List ℕ)
    (loss client app out ms msgs server here : ℕ)
    → All (Plain is_colon) (i ∷ ip)
    → gethostbyname (i ∷ ip) ≡ some server
    → gethostbyname local_ip ≡ some here
    → client < 65_536
    → app < 65_536
    → out < 65_536
    → let srv =
        from_usage
          (srv_usage (program ∷ decimal loss ∷ decimal app ∷ decimal client ∷ []))
          (λ a. some (names a)) in
      let rcv =
        from_usage
          (rcv_usage
            (program ∷ decimal loss ∷ address (i ∷ ip) client ∷ decimal out ∷ decimal ms ∷ []))
          (addresses gethostbyname) in
      let stream =
        from_usage
          (stream_usage (program ∷ address (i ∷ ip) app ∷ decimal msgs ∷ []))
          (send_addr gethostbyname) in
      (srv
        ≡ some (record {
          app = record { ip = any; port = app };
          rcv = record { ip = any; port = client };
        }))
      × (rcv
          ≡ some (record {
            sender = record { ip = server; port = client };
            localapp = record { ip = server; port = out };
          }))
      × (stream ≡ some (record { ip = server; port = app }))
unfolding srv_usage names addresses send_addr
addresses_lem gethostbyname program i ip loss client app out ms msgs server here h found local c a
      o =
    (
      rw (atoi-decimal app, atoi-decimal client, port_of-small app a, port_of-small client c) refl,
      rw
          (
            rcv_usage-reads program loss i ip client out ms h,
            found,
            local,
            port_of-small client c,
            port_of-small out o,
          )
          refl,
      rw (stream_usage-reads program i ip app msgs h, found, port_of-small app a) refl,
    )
