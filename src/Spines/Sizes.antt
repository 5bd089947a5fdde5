-- ===== src/Spines/Sizes.antt =====
-- p4/spines-src-5.5/daemon/protocol.c: the sizes of the headers, and how a message is cut into packets.
-- A `sizeof` and the run-time lengths are arguments, as they depend on the compiler and the configuration.
-- `int16u` wraps around at 65536; `none` is the `EXIT` alarm.
use cs2520_2021spring.Common.{
  ℕ, ◌+◌, ◌-◌, ◌*◌, ◌%◌, ◌≤◌, ◌<◌, ◌≡◌, ltb, if◌then◌else◌, Option, none, some, List, [], ◌∷◌,
  length, All, arith, Bool-cases, inl, inr,
}

pub data LinkType : Type 0 where
  control_link udp_link reliable_udp_link realtime_udp_link : LinkType
  reserved0_link reserved1_link intrusion_tol_link other_link : LinkType

pub data DataType : Type 0 where
  udp_data rel_udp_data realtime_data intru_tol_data : DataType

unfoldable pub get_link_data_type : LinkType → Option DataType
get_link_data_type udp_link = some udp_data
get_link_data_type reliable_udp_link = some rel_udp_data
get_link_data_type realtime_udp_link = some realtime_data
get_link_data_type intrusion_tol_link = some intru_tol_data
get_link_data_type control_link = none
get_link_data_type reserved0_link = none
get_link_data_type reserved1_link = none
get_link_data_type other_link = none

pub data Dissemination : Type 0 where
  min_weight_routing it_priority_routing it_reliable_routing source_based_routing : Dissemination
  other_routing : Dissemination

pub record Sizes : Type 0 where
  pub packet_header : ℕ
  pub fragment_header : ℕ
  pub rel_udp_pkt_add : ℕ
  pub reliable_tail : ℕ
  pub rt_seq_type : ℕ
  pub intru_tol_pkt_tail : ℕ
  pub cipher_blk_len : ℕ
  pub hmac_key_len : ℕ
  pub prio_flood_header : ℕ
  pub rel_flood_header : ℕ
  pub rel_flood_tail : ℕ
  pub rel_flood_hbh_ack : ℕ
  pub sb_header : ℕ
  pub bitmask_size : ℕ
  pub prio_signature_len : ℕ
  pub rel_signature_len : ℕ

unfoldable pub dissemination_header_size : Sizes → Dissemination → Option ℕ
dissemination_header_size z min_weight_routing = some 0
dissemination_header_size z it_priority_routing =
    some ((z.prio_flood_header + z.bitmask_size + z.prio_signature_len + z.fragment_header) % 65536)
dissemination_header_size z it_reliable_routing = some (
    (z.rel_flood_header + z.bitmask_size + z.rel_signature_len + z.fragment_header
      + z.rel_flood_tail + z.rel_flood_hbh_ack + z.fragment_header)
    % 65536)
dissemination_header_size z source_based_routing = some ((z.sb_header + z.bitmask_size) % 65536)
dissemination_header_size z other_routing = none

unfoldable pub link_header_size : Sizes → LinkType → Option ℕ
link_header_size z udp_link = some (z.packet_header % 65536)
link_header_size z control_link = some (z.packet_header % 65536)
link_header_size z reliable_udp_link =
    some ((z.packet_header + z.rel_udp_pkt_add + z.reliable_tail) % 65536)
link_header_size z realtime_udp_link = some ((z.packet_header + z.rt_seq_type) % 65536)
link_header_size z intrusion_tol_link = some (
    (z.packet_header + z.intru_tol_pkt_tail + 8 + z.cipher_blk_len + z.cipher_blk_len
      + z.hmac_key_len)
    % 65536)
link_header_size z reserved0_link = none
link_header_size z reserved1_link = none
link_header_size z other_link = none

-- The loop over the elements behind the first: the packets, and the length of the last. `cap` is what a
-- packet has room for.
unfoldable pub cut : ℕ → ℕ → List ℕ → ℕ → ℕ → ℕ × ℕ
cut frag cap [] packets cur = (packets, cur)
cut frag cap (len ∷ lens) packets cur =
    let over = cut frag cap lens ((packets + 1) % 65536) ((len + frag) % 65536) in
    let fits = cut frag cap lens packets ((cur + (len + frag)) % 65536) in
    if ltb cap (cur + (len + frag)) then over else fits

-- The packets of a message, and the space in the last, for a packet size above the link's header.
unfoldable pub calculate_packets : Sizes → ℕ → LinkType → List ℕ → Option (ℕ × ℕ)
calculate_packets z max_packet_size mode lens = from_header (link_header_size z mode)
  where
    from_header : Option ℕ → Option (ℕ × ℕ)
    from_header none = none
    from_header (some link) =
        let r = cut z.fragment_header (max_packet_size - link) lens 1 0 in
        some (r.0, (max_packet_size - link - r.1) % 65536)

-- The bytes of the elements, each with its fragment header.
abbrev pub total : ℕ → List ℕ → ℕ
total frag [] = 0
total frag (len ∷ lens) = len + frag + total frag lens

small : (n : ℕ) → n < 65536 → n % 65536 ≡ n
small n h = omega arith

next_packet : (p : ℕ) → p + 1 < 65536 → (p + 1) % 65536 ≡ p + 1
next_packet p h = omega arith

one_more : (cap p : ℕ) → cap * (p + 1) ≡ cap * p + cap
one_more cap p = grind arith

cut_lem :
    (frag cap : ℕ) (lens : List ℕ) (p c : ℕ)
    → cap < 65536
    → All (λ len. len + frag ≤ cap) lens
    → p + length lens < 65536
    → c ≤ cap
    → let r = cut frag cap lens p c in
      (r.1 ≤ cap)
      × (p ≤ r.0)
      × (r.0 ≤ p + length lens)
      × (total frag lens + c + cap * p ≤ cap * r.0 + r.1)
unfolding cut
cut_lem frag cap [] p c h fit room le = (le, omega arith, omega arith, omega arith)
cut_lem frag cap (len ∷ lens) p c h fit room le = elim (Bool-cases (ltb cap (c + (len + frag)))) [
  | inl over ↦
      let ih = cut_lem frag cap lens (p + 1) (len + frag) h fit.1 (omega arith) fit.0 in
      rw (over, next_packet p (omega arith), small (len + frag) (omega arith))
        (ih.0, omega (arith, ih.1), omega (arith, ih.2), omega (arith, ih.3, one_more cap p))
  | inr fits ↦
      let le : c + (len + frag) ≤ cap = ground arith in
      let ih = cut_lem frag cap lens p (c + (len + frag)) h fit.1 (omega arith) le in
      rw (fits, small (c + (len + frag)) (omega arith))
        (ih.0, ih.1, omega (arith, ih.2), omega (arith, ih.3))
]

-- If each element fits into a packet of less than 65536 bytes and there are fewer than 65535 of them,
-- the packets hold the whole message: they are at most one more than the elements, the last is no
-- longer than a packet, and all elements fit into the full packets before it and what is used of it.
pub cut_sound :
    (frag cap : ℕ) (lens : List ℕ)
    → cap < 65536
    → All (λ len. len + frag ≤ cap) lens
    → length lens < 65535
    → let r = cut frag cap lens 1 0 in
      (r.1 ≤ cap) × (1 ≤ r.0) × (r.0 ≤ 1 + length lens) × (total frag lens + cap ≤ cap * r.0 + r.1)
cut_sound frag cap lens h fit room =
    let t = cut_lem frag cap lens 1 0 h fit (omega arith) (omega arith) in
    (t.0, t.1, t.2, omega (arith, t.3))
