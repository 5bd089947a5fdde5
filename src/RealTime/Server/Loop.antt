-- ===== src/RealTime/Server/Loop.antt =====
-- p2/source/rt_srv.c: its main loop. A round may bring data of the application, a datagram from the
-- network, both, or neither, and then slides the window.
use cs2520_2021spring.Common.{ℕ, Option, none, some, List, [], ◌∷◌, ◌++◌}
use cs2520_2021spring.Timeval.{Timeval}
use cs2520_2021spring.FileCopy.Message.{Addr}
use cs2520_2021spring.RealTime.Packet.{Package}
use cs2520_2021spring.RealTime.Server.{Server, Out, AppPkt, Clocks, on_app, on_network, slide_head}

pub record Round : Type 0 where
  pub app : Option (Timeval × AppPkt)
  pub network : Option (Clocks × Addr × Package)
  pub slides : Timeval

abbrev pub case_app : Option (Timeval × AppPkt) → Server → Server × List Out
case_app none s = (s, [])
case_app (some (now, app)) s = on_app now app s

abbrev pub case_network : Option (Clocks × Addr × Package) → Server → Server × List Out
case_network none s = (s, [])
case_network (some (c, from, p)) s = on_network c from p s

abbrev pub with_out : List Out → Option Server → Option (Server × List Out)
with_out out none = none
with_out out (some s) = some (s, out)

-- `none` means that the fuel of the slide ran out.
unfoldable pub round : ℕ → Round → Server → Option (Server × List Out)
round fuel e s =
    let t = case_app e.app s in
    let u = case_network e.network t.0 in
    with_out (t.1 ++ u.1) (slide_head fuel e.slides u.0.head u.0)

abbrev pub prepend_out : List Out → Option (Server × List Out) → Option (Server × List Out)
prepend_out out none = none
prepend_out out (some (s, more)) = some (s, out ++ more)

abbrev pub and_then :
    (Server → Option (Server × List Out)) → Option (Server × List Out) → Option (Server × List Out)
and_then k none = none
and_then k (some (s, out)) = prepend_out out (k s)

unfoldable pub run : ℕ → List Round → Server → Option (Server × List Out)
run fuel [] s = some (s, [])
run fuel (e ∷ es) s = and_then (run fuel es) (round fuel e s)
