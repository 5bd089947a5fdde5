-- ===== src/Spines/Stamp.antt =====
-- p4/spines-src-5.5/daemon/link_state.c and node.c: the comparisons of the logical time stamps, which are
-- `int16u` and wrap around, and of the node and client numbers.
use cs2520_2021spring.Common.{
  ℕ, ◌+◌, ◌%◌, ◌^◌, ◌≤◌, ◌<◌, ◌≡◌, ◌&&◌, not, ltb, leb, ◌==◌, if◌then◌else◌, arith,
}
use cs2520_2021spring.Common.Int.{ℤ, pos, negsuc, pos_part, neg_part, sub_ℕ}

abbrev pub quarter_range : ℕ
quarter_range = 16384

abbrev pub three_quarter_range : ℕ
three_quarter_range = 49152

-- `++Link_State_Update_LTS`
unfoldable pub lts_inc : ℕ → ℕ
lts_inc t = (t + 1) % 2 ^ 16

unfoldable pub lts_cmp : ℕ → ℕ → ℤ
lts_cmp left right =
    if ltb left right
    then (if ltb left quarter_range && leb three_quarter_range right then pos 1 else negsuc 0)
    else if not (left == right)
    then (if ltb right quarter_range && leb three_quarter_range left then negsuc 0 else pos 1)
    else pos 0

-- A stamp below 2^16 that was incremented from 1 up to 16384 times is higher than it was, also where it
-- wrapped around.
pub lts_cmp_later :
    (t k : ℕ) → t < 65536 → 0 < k → k ≤ quarter_range → lts_cmp ((t + k) % 65536) t ≡ pos 1
unfolding lts_cmp
lts_cmp_later t k h p le = ground arith

abbrev pub opposite : ℤ → ℤ
opposite z = sub_ℕ (neg_part z) (pos_part z)

-- Swapping the stamps turns the answer round, and the answer is 0 for equal stamps only.
pub lts_cmp_swap :
    (a b : ℕ) → (lts_cmp b a ≡ opposite (lts_cmp a b)) × (lts_cmp a b ≡ pos 0 → a ≡ b)
unfolding lts_cmp
lts_cmp_swap a b = ground arith

unfoldable pub node_id_cmp : ℕ → ℕ → ℤ
node_id_cmp left right =
    if ltb left right then negsuc 0 else if not (left == right) then pos 1 else pos 0

pub record ClientId : Type 0 where
  pub daemon_id : ℕ
  pub client_port : ℕ

unfoldable pub client_id_cmp : ClientId → ClientId → ℤ
client_id_cmp left right =
    if ltb left.daemon_id right.daemon_id
    then negsuc 0
    else if ltb right.daemon_id left.daemon_id
    then pos 1
    else if ltb left.client_port right.client_port
    then negsuc 0
    else if ltb right.client_port left.client_port
    then pos 1
    else pos 0

-- The comparison of clients is that of their nodes, and for one node that of their ports.
pub client_id_cmp_lem :
    (a b : ClientId)
    → client_id_cmp a b ≡ (
        if a.daemon_id == b.daemon_id
        then node_id_cmp a.client_port b.client_port
        else node_id_cmp a.daemon_id b.daemon_id)
unfolding client_id_cmp node_id_cmp
client_id_cmp_lem a b = ground arith
