-- ===== src/Spines/Leg.antt =====
-- p4/spines-src-5.5/daemon/network.c: a new cost of a leg of the network. The neighbour table is a list
-- that says for each place whether it holds a node; the calls of other parts of the daemon are listed in
-- their order. `none` is the `EXIT` alarm or a failed `assert`.
use cs2520_2021spring.Common.{
  sym, dec_eq, subst, ◌∙◌, ℕ, zero, suc, ◌+◌, ◌-◌, ◌*◌, ◌≤◌, ◌<◌, ◌≡◌, refl, Bool, true, false, not,
  leb, if◌then◌else◌, Option, none, some, List, [], ◌∷◌, get_or, set, arith, Bool-cases, inl, inr,
  ◌⊎◌,
}
use cs2520_2021spring.Common.Int.{eq_of_parts, ℤ, pos, negsuc, pos_part, ◌==ℤ◌}
use cs2520_2021spring.Spines.Stamp.{lts_inc}

pub data RouteWeight : Type 0 where
  distance_route lossrate_route problem_route latency_route average_route : RouteWeight
  other_route : RouteWeight

abbrev pub max_latency : ℕ
max_latency = 600

unfoldable pub network_leg_initial_cost : RouteWeight → Option ℤ
network_leg_initial_cost distance_route = some (pos 1)
network_leg_initial_cost lossrate_route = some (pos 1)
network_leg_initial_cost problem_route = some (negsuc (max_latency - 1))
network_leg_initial_cost latency_route = some (pos max_latency)
network_leg_initial_cost average_route = some (pos max_latency)
network_leg_initial_cost other_route = none

pub data Status : Type 0 where
  disconnected not_yet_connected connected : Status

pub data Call : Type 0 where
  process_edge_update clear_cache send_edges send_groups add_to_changed schedule_routes : Call

pub record Leg : Type 0 where
  pub status : Status
  pub cost : ℤ
  pub edge_cost : ℤ
  pub timestamp_sec : ℕ
  pub timestamp_usec : ℕ
  pub edge_lts : ℕ
  pub update_lts : ℕ
  pub neighbor_id : ℤ
  pub neighbor_nodes : List Bool
  pub num_neighbors : ℕ

abbrev pub is_connected : Status → Bool
is_connected connected = true
is_connected disconnected = false
is_connected not_yet_connected = false

-- The new cost fits the status: -1 stands for a leg that is not connected.
unfoldable pub fits_status : ℤ → Leg → Bool
fits_status cost l =
    if cost ==ℤ negsuc 0 then not (is_connected l.status) else is_connected l.status

-- `for (; Num_Neighbors > 0 && Neighbor_Nodes[Num_Neighbors - 1] == NULL; --Num_Neighbors)`
unfoldable pub trim : List Bool → ℕ → ℕ
trim nodes zero = zero
trim nodes (suc n) = let rest = trim nodes n in if get_or nodes n false then suc n else rest

-- The time stamp and the logical time stamp of the edge move on.
unfoldable pub touch : ℤ → Leg → Leg
touch cost l =
    let full = leb 1000000 (l.timestamp_usec + 1) in
    record l {
      cost = cost;
      edge_cost = cost;
      timestamp_usec = if full then 0 else l.timestamp_usec + 1;
      timestamp_sec = if full then l.timestamp_sec + 1 else l.timestamp_sec;
      update_lts = lts_inc l.update_lts;
      edge_lts = lts_inc l.update_lts;
    }

unfoldable pub disconnect : Leg → Leg
disconnect l =
    let nodes = set l.neighbor_nodes (pos_part l.neighbor_id) false in
    record l {
      neighbor_nodes = nodes;
      neighbor_id = negsuc 0;
      num_neighbors = trim nodes l.num_neighbors;
    }

abbrev pub connect_calls : List Call
connect_calls =
    process_edge_update ∷ clear_cache ∷ send_edges ∷ send_groups ∷ add_to_changed ∷ schedule_routes
    ∷ []

abbrev pub change_calls : List Call
change_calls = process_edge_update ∷ clear_cache ∷ add_to_changed ∷ schedule_routes ∷ []

unfoldable pub network_leg_set_cost : ℤ → Leg → Option (Leg × List Call)
network_leg_set_cost cost l =
    if not (fits_status cost l)
    then none
    else if cost ==ℤ l.cost
    then some (l, [])
    else if l.cost ==ℤ negsuc 0
    then if is_connected l.status then some (touch cost l, connect_calls) else none
    else some (if cost ==ℤ negsuc 0 then disconnect (touch cost l) else touch cost l, change_calls)

one_less : (n : ℕ) → n ≡ suc n - 1
one_less n = omega arith

-- The new number of neighbours is 0 or has a node at its last place, and no place that holds a node is
-- cut off.
pub trim_lem :
    (nodes : List Bool) (n : ℕ)
    → let m = trim nodes n in
      (m ≤ n)
      × ((m ≡ 0) ⊎ (get_or nodes (m - 1) false ≡ true))
      × ((k : ℕ) → m ≤ k → k < n → get_or nodes k false ≡ false)
unfolding trim
trim_lem nodes zero = (omega arith, inl refl, λ k lo hi. absurd (omega arith))
trim_lem nodes (suc n) = elim (Bool-cases (get_or nodes n false)) [
  | inl live ↦ rw live (
    omega arith,
    inr (subst (λ j. get_or nodes j false ≡ true) (one_less n) live),
    λ k lo hi. absurd (omega arith),
  )
  | inr free ↦
      let ih = trim_lem nodes n in
      rw free (
        omega (arith, ih.0),
        ih.1,
        λ k lo hi. elim (dec_eq k n) [
          | inl e ↦ subst (λ j. get_or nodes j false ≡ false) (sym e) free
          | inr ne ↦ ih.2 k lo (omega arith)
        ],
      )
]

-- The edge's time stamp in microseconds.
abbrev pub stamp : Leg → ℕ
stamp l = l.timestamp_sec * 1000000 + l.timestamp_usec

-- What a leg is after a new cost.
abbrev pub HasCost : ℤ → Leg → ℕ → Leg → Type 0
HasCost cost l later t =
    (t.cost ≡ cost)
    × (t.edge_cost ≡ cost)
    × (t.timestamp_usec < 1000000)
    × (stamp t ≡ stamp l + later)

touch_lem : (cost : ℤ) (l : Leg) → l.timestamp_usec < 1000000 → HasCost cost l 1 (touch cost l)
unfolding touch
touch_lem cost l h = (refl, refl, ground arith, ground arith)

disconnect_lem : (cost : ℤ) (l t : Leg) → HasCost cost l 1 t → HasCost cost l 1 (disconnect t)
unfolding disconnect
disconnect_lem cost l t h = h

connected_now :
    (cost : ℤ) (l : Leg)
    → fits_status cost l ≡ true
    → (cost ==ℤ l.cost) ≡ false
    → (l.cost ==ℤ negsuc 0) ≡ true
    → is_connected l.status ≡ true
unfolding fits_status
connected_now cost l fits ne was = ground arith

-- A cost that fits the status is always taken, and the assertion never fails. Then the leg and its
-- edge have the new cost, if the edge had the leg's; the edge's microseconds stay below a million, and
-- its time stamp is one microsecond later if the cost is another, and otherwise the same.
pub network_leg_set_cost_lem :
    (cost : ℤ) (l : Leg)
    → fits_status cost l ≡ true
    → l.edge_cost ≡ l.cost
    → l.timestamp_usec < 1000000
    → (t : Leg) × (calls : List Call) × (network_leg_set_cost cost l ≡ some (t, calls))
      × HasCost cost l (if cost ==ℤ l.cost then 0 else 1) t
unfolding network_leg_set_cost
network_leg_set_cost_lem cost l fits same usec = elim (Bool-cases (cost ==ℤ l.cost)) [
  | inl e ↦
      let eq : l.cost ≡ cost = eq_of_parts l.cost cost (ground arith) in
      (l, [], rw (fits, e) refl, rw e (eq, same ∙ eq, usec, omega arith))
  | inr ne ↦ elim (Bool-cases (l.cost ==ℤ negsuc 0)) [
    | inl was ↦
        let on : is_connected l.status ≡ true = connected_now cost l fits ne was in
        (touch cost l, connect_calls, rw (fits, ne, was, on) refl, rw ne (touch_lem cost l usec))
    | inr old ↦ elim (Bool-cases (cost ==ℤ negsuc 0)) [
      | inl off ↦ (
        disconnect (touch cost l),
        change_calls,
        rw (fits, ne, old, off) refl,
        rw ne (disconnect_lem cost l (touch cost l) (touch_lem cost l usec)),
      )
      | inr on ↦
          (touch cost l, change_calls, rw (fits, ne, old, on) refl, rw ne (touch_lem cost l usec))
    ]
  ]
]
