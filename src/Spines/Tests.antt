-- ===== src/Spines/Tests.antt =====
-- Runs of the functions of p4/spines-src-5.5/daemon on small inputs.
use cs2520_2021spring.Common.{ℕ, ◌+◌, ◌-◌, ◌≡◌, ◌≢◌, true, false, if◌then◌else◌, none, some, arith}
use cs2520_2021spring.Common.Int.{pos, negsuc, pos_part, ltb_ℤ}
use cs2520_2021spring.Spines.Sequence.{
  relative_position, LossData, check_link_loss, check_link_loss_lem, gap, gap_diverges, iterate,
  pack_max_seq,
}

-- The rate as a pair of counters: the packets lost and the packets received.
abbrev lose : ℕ × ℕ → ℕ × ℕ
lose (a, b) = (a + 1, b)

abbrev kept : ℕ × ℕ → ℕ × ℕ
kept (a, b) = (a, b + 1)

abbrev link : LossData lose kept
link = record { recvd_seq = 29998; loss_rate = (0, 0) }

far : relative_position 29998 1 ≢ negsuc 14999
unfolding relative_position
far e = absurd (ground arith)

check_link_loss_lem_example :
    check_link_loss lose kept pack_max_seq true false 1 link
    ≡ some (
        if ltb_ℤ (pos 0) (relative_position 29998 1)
        then record {
          recvd_seq = 1;
          loss_rate = kept (iterate lose kept (pos_part (relative_position 29998 1) - 1) (0, 0));
        }
        else link)
check_link_loss_lem_example = check_link_loss_lem lose kept 1 link (omega arith) (omega arith) far

gap_diverges_example : gap lose kept 60000 20001 30000 (0, 0) ≡ none
gap_diverges_example = gap_diverges lose kept 60000 20001 30000 (0, 0) (omega arith) (omega arith)
