-- ===== src/RealTime/Transfer/Stream.antt =====
-- p2/source: the programs of the stream with the transport between them. The receiver of the stream counts
-- what rt_rcv.c hands over and it receives.
use mathlib.Core.List.{Sublist}
use cs2520_2021spring.Common.{◌+◌, ◌≤◌, ◌≡◌, ap, sym, ◌∙◌, subst, arith, List, length}
use cs2520_2021spring.Common.Int.{pos}
use cs2520_2021spring.Common.Double.{Double}
use cs2520_2021spring.RealTime.Receiver.{Receiver}
use cs2520_2021spring.RealTime.Server.{Server}
use cs2520_2021spring.RealTime.Stream.{no_counts, count_all, count_all_lem}
use cs2520_2021spring.RealTime.Stream.Monitor.{Monitor, Event, run, packets, run-counts}
use cs2520_2021spring.RealTime.Transfer.{World, Reach, begin}
use cs2520_2021spring.RealTime.Transfer.Channel.{Connected, contents, handed_in_order}

-- From the connection on, whatever the network does, if the server's fresh window is zeros, and the
-- receiver of the stream gets what was handed over, in that order: then it counts each packet, its last
-- number is `C_ack`, the gaps that it counts are no more than the numbers up to `C_ack` that were not handed
-- over, and what it got is a sublist of what the application gave at the other end.
pub stream_counts :
    {W : Type 0} ⦃d : Double W⦄ (server : Server) (receiver : Receiver) (w : World)
    (es : List Event) (m : Monitor W)
    → Connected server receiver
    → Reach (begin server receiver) w
    → packets es ≡ w.handed
    → m.counts ≡ no_counts
    → let t = (run es m).0.counts in
      (t.rcvd_count ≡ length w.handed)
      × (t.last_rcvd ≡ pos w.receiver.c_ack)
      × (t.out_of_order_count + length w.handed ≤ w.receiver.c_ack)
      × Sublist (contents (packets es)) w.given
stream_counts server receiver w es m c reach same start =
    let (sub, up, le) = handed_in_order server receiver w c reach in
    let counts =
      (run-counts es m).0
      ∙ ap (count_all (packets es)) start
      ∙ ap (λ ps. count_all ps no_counts) same in
    let (last, rcvd, gaps) = count_all_lem w.receiver.c_ack w.handed up in
    (
      ap (λ t. t.rcvd_count) counts ∙ rcvd,
      ap (λ t. t.last_rcvd) counts ∙ last,
      omega (arith, gaps, ap (λ t. t.out_of_order_count) counts),
      subst (λ ps. Sublist (contents ps) w.given) (sym same) sub,
    )
