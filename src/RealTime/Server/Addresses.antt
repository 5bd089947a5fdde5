-- ===== src/RealTime/Server/Addresses.antt =====
-- p2/source/rt_srv.c: to whom the server sends.
use cs2520_2021spring.Common.{ap, ◌≡◌, refl, arith, false, if◌then◌else◌, [], ◌∷◌}
use cs2520_2021spring.Common.Int.{pos, negsuc}
use cs2520_2021spring.Timeval.{Timeval}
use cs2520_2021spring.FileCopy.Message.{Addr, same_addr}
use cs2520_2021spring.RealTime.Packet.{Package}
use cs2520_2021spring.RealTime.Server.{
  data_pkt, AppPkt, Server, Out, Clocks, cmp_addr, on_app, on_network, on_request, arrive,
}

-- `cmp_addr` decides whether two addresses are the same.
pub cmp_addr_lem : (a b : Addr) → cmp_addr a b ≡ (if same_addr a b then pos 1 else negsuc 0)
unfolding cmp_addr
cmp_addr_lem a b = ground arith

declined : Clocks → Package → Package
declined c p = record p { kind = pos 5; receive_ts1 = c.refused }

network_decline :
    (c : Clocks) (from : Addr) (p : Package) (s : Server)
    → p.kind ≡ pos 3
    → same_addr s.current_addr from ≡ false
    → on_network c from p s ≡ (
      record (arrive from p s) { rcv_pkt = declined c p },
      record { to = from; pkt = declined c p } ∷ [],
    )
unfolding on_network on_request cmp_addr declined
network_decline c from p s e other = ground arith

-- A request from another address is declined, and the connection's address stays; but the next data of
-- the application goes to the address that was declined.
pub data_after_decline :
    (c : Clocks) (from : Addr) (p : Package) (now : Timeval) (app : AppPkt) (s : Server)
    → p.kind ≡ pos 3
    → same_addr s.current_addr from ≡ false
    → let t = on_network c from p s in
      ((o : Out) × (t.1 ≡ o ∷ []) × (o.to ≡ from) × (o.pkt.kind ≡ pos 5))
      × (t.0.current_addr ≡ s.current_addr)
      × ((o : Out) × ((on_app now app t.0).1 ≡ o ∷ []) × (o.to ≡ from) × (o.pkt.kind ≡ pos 0))
unfolding on_app declined
data_after_decline c from p now app s e other =
    let step = network_decline c from p s e other in
    (
      (record { to = from; pkt = declined c p }, ap (λ t. t.1) step, refl, refl),
      ap (λ t. t.0.current_addr) step,
      (
        record {
          to = from;
          pkt = data_pkt now app (record (arrive from p s) { rcv_pkt = declined c p });
        },
        ap (λ t. (on_app now app t.0).1) step,
        refl,
        refl,
      ),
    )
