-- ===== src/FileCopy/Hosts.antt =====
-- The addresses that the programs of p1/source send to and listen on. `gethostbyname` is a parameter: the
-- first address that it finds for a name, or nothing, where the programs end.
use cs2520_2021spring.Common.{ℕ, ◌<◌, ◌≡◌, refl, Option, some, List, [], ◌∷◌, All}
use cs2520_2021spring.Common.Int.{ℤ}
use cs2520_2021spring.Common.Text.{decimal, Plain, scan_int-decimal}
use cs2520_2021spring.Common.Hosts.{port_of, port_of-small, any, with_host, from_usage}
use cs2520_2021spring.FileCopy.Message.{Addr}
use cs2520_2021spring.FileCopy.Usage.{
  tokens_of-destination, destination, Arguments, TcpArguments, ReceiverArguments, usage, tcp_usage,
  rcv_usage, tcp_rcv_usage, is_delim,
}

-- rcv.c and t_rcv.c: where they listen.
unfoldable pub rcv_name : ReceiverArguments → Addr
rcv_name a = record { ip = any; port = port_of a.port }

unfoldable pub tcp_name : ℤ → Addr
tcp_name port = record { ip = any; port = port_of port }

module _ (gethostbyname : List ℕ → Option ℕ) where
  -- ncp.c
  unfoldable pub send_addr : Arguments → Option Addr
  send_addr a =
      with_host (gethostbyname a.receiver_ip)
        (λ host_num. some (record { ip = host_num; port = port_of a.port }))

  -- t_ncp.c
  unfoldable pub tcp_host : TcpArguments → Option Addr
  tcp_host a =
      with_host (gethostbyname a.receiver_ip)
        (λ found. some (record { ip = found; port = port_of a.port }))

-- With command lines written as their usage messages ask, the same port below 65536 for both programs of a
-- copy, and a name that is found: ncp sends to the address of that name and the port that rcv listens on, and
-- t_ncp to the same address and the port that t_rcv listens on.
pub hosts_lem :
    (gethostbyname : List ℕ → Option ℕ) (program env source : List ℕ) (loss n : ℕ)
    (name_chars : List ℕ) (i : ℕ) (ip : List ℕ) (port host : ℕ)
    → All (Plain is_delim) (n ∷ name_chars)
    → All (Plain is_delim) (i ∷ ip)
    → gethostbyname (i ∷ ip) ≡ some host
    → port < 65_536
    → let dest = destination (n ∷ name_chars) (i ∷ ip) (decimal port) in
      let ncp =
        from_usage
          (usage (program ∷ decimal loss ∷ env ∷ source ∷ dest ∷ []))
          (send_addr gethostbyname) in
      let rcv =
        from_usage
          (rcv_usage (program ∷ decimal loss ∷ decimal port ∷ env ∷ []))
          (λ a. some (rcv_name a)) in
      let t_ncp = from_usage (tcp_usage (program ∷ source ∷ dest ∷ [])) (tcp_host gethostbyname) in
      let t_rcv =
        from_usage (tcp_rcv_usage (program ∷ decimal port ∷ [])) (λ p. some (tcp_name p)) in
      (ncp ≡ some (record { ip = host; port = port }))
      × (rcv ≡ some (record { ip = any; port = port }))
      × (t_ncp ≡ some (record { ip = host; port = port }))
      × (t_rcv ≡ some (record { ip = any; port = port }))
unfolding usage tcp_usage rcv_usage tcp_rcv_usage rcv_name tcp_name send_addr tcp_host
hosts_lem gethostbyname program env source loss n name_chars i ip port host hn hi found small = (
  rw (tokens_of-destination _ n name_chars i ip port hn hi, found, port_of-small port small) refl,
  rw (scan_int-decimal port, port_of-small port small) refl,
  rw (tokens_of-destination _ n name_chars i ip port hn hi, found, port_of-small port small) refl,
  rw (scan_int-decimal port, port_of-small port small) refl,
)
