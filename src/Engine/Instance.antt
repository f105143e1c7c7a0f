-- ===== src/Engine/Instance.antt =====
-- internal/engine/manager.go: EngineInstance, the choice of a node for a room, and the status.
-- hash/crc32 is the parameter `crc32`; the instance's mutex makes each read one atomic step.
use pokemon_simulator_server.Base.{
  ℕ, zero, suc, ◌-◌, ◌%◌, String, Bool, ◌&&◌, Option, none, some, List, [], ◌∷◌, ◌++◌, ℤ, pos,
  negsuc, int_le, int_lt, int_eq, int_order, integer_eq, not, sort, length, get_elem?, Map, keys,
  lookup, if◌then◌else◌,
}
use pokemon_simulator_server.Configs.{cpp_max_instance}
use pokemon_simulator_server.Engine.Node.{EngineNode, EngineNodeStatus, snapshot, lt_70}

pub record EngineInstance : Type 0 where
  pub replicas : ℤ
  pub namespace : String
  pub stateful_set_name : String
  pub headless_service_name : String
  pub max_pod_index : ℤ
  pub nodes : Map ℤ EngineNode

pub record EngineStatus : Type 0 where
  pub total : ℕ
  pub healthy : ℕ
  pub unhealthy : ℕ
  pub nodes : List EngineNodeStatus
  pub replicas : ℤ
  pub namespace : String
  pub service_name : String
  pub stateful_set_name : String
  pub headless_service_name : String

-- getNode
unfoldable pub get_node : EngineInstance → ℤ → Option EngineNode
unfolding lookup
get_node e i = lookup i e.nodes

-- GetNodeByPodIndex: `none` is the error "pod %d not found".
unfoldable pub get_node_by_pod_index : EngineInstance → ℤ → Option EngineNode
unfolding get_node
get_node_by_pod_index e i = get_node e i

-- snapshotPodIndices
abbrev pub snapshot_pod_indices : EngineInstance → List ℤ
snapshot_pod_indices e = keys e.nodes

-- A capacity that was not reported falls back to the configured one.
unfoldable pub effective_max : EngineNodeStatus → ℤ
effective_max st = if int_le st.max_capacity (pos 0) then pos cpp_max_instance else st.max_capacity

-- effectiveMax > 0 && status.ActiveRooms >= effectiveMax
unfoldable pub is_full : EngineNodeStatus → Bool
unfolding effective_max
is_full st = int_lt (pos 0) (effective_max st) && int_le (effective_max st) st.active_rooms

pub record Candidates : Type 0 where
  pub under_load : List ℤ
  pub not_full : List ℤ

-- One turn of the loop over the indices in pickPreferredNodeForRoom.
unfoldable pub consider : ℤ → Option EngineNode → Candidates → Candidates
unfolding is_full lt_70 snapshot
consider i none c = c
consider i (some n) c =
    let st = snapshot n in
    if not st.healthy then c else if is_full st then c else record c {
      not_full = c.not_full ++ (i ∷ []);
      under_load = if lt_70 st.cpu_usage then c.under_load ++ (i ∷ []) else c.under_load;
    }

unfoldable pub collect : EngineInstance → List ℤ → Candidates → Candidates
unfolding consider get_node
collect e [] c = c
collect e (i ∷ is) c = collect e is (consider i (get_node e i) c)

abbrev pub no_candidates : Candidates
no_candidates = record { under_load = []; not_full = [] }

-- candidates := underLoadIndices, or notFullIndices if there are none
unfoldable pub candidates : Candidates → List ℤ
candidates c = elim c.under_load [ [] ↦ c.not_full | i ∷ is ↦ i ∷ is ]

pub data NodeResult : Type 0 where
  node : EngineNode → NodeResult
  no_replicas : NodeResult
  pod_not_found : ℤ → NodeResult

-- int(h) % replicas, with one replica in place of none
unfoldable pub hash_mod : ℕ → ℤ → ℤ
hash_mod h (pos zero) = pos (h % 1)
hash_mod h (pos (suc n)) = pos (h % suc n)
hash_mod h (negsuc n) = pos (h % 1)

module _ (crc32 : String → ℕ) where
  -- candidates[int(crc)%len(candidates)], after sort.Ints
  unfoldable pub choose : String → List ℤ → Option ℤ
  unfolding sort int_order
  choose room_id is = get_elem? (sort int_order is) (crc32 room_id % length is)

  unfoldable pub pick_among : EngineInstance → String → List ℤ → Option EngineNode
  unfolding choose get_node_by_pod_index
  pick_among e room_id is = elim (choose room_id is) [
    | none ↦ none
    | some i ↦ get_node_by_pod_index e i
  ]

  -- pickPreferredNodeForRoom
  unfoldable pub pick_preferred_node_for_room : EngineInstance → String → Option EngineNode
  unfolding collect candidates pick_among
  pick_preferred_node_for_room e room_id =
      pick_among e room_id (candidates (collect e (snapshot_pod_indices e) no_candidates))

  -- hashRoom
  unfoldable pub hash_room : EngineInstance → String → ℤ
  unfolding hash_mod
  hash_room e room_id = hash_mod (crc32 room_id) e.replicas

  unfoldable pub fallback_node : EngineInstance → String → NodeResult
  unfolding hash_room get_node
  fallback_node e room_id =
      if int_le e.replicas (pos 0) then no_replicas else elim (get_node e (hash_room e room_id)) [
        | none ↦ pod_not_found (hash_room e room_id)
        | some n ↦ node n
      ]

  -- GetNodeForRoom
  unfoldable pub get_node_for_room : EngineInstance → String → NodeResult
  unfolding pick_preferred_node_for_room fallback_node
  get_node_for_room e room_id = elim (pick_preferred_node_for_room e room_id) [
    | some n ↦ node n
    | none ↦ fallback_node e room_id
  ]

-- One turn of the loop of GetStatus: an unhealthy node without rooms is left out.
unfoldable pub count_node :
    Option EngineNode → List EngineNodeStatus × ℕ → List EngineNodeStatus × ℕ
unfolding snapshot
count_node none acc = acc
count_node (some n) (statuses, healthy) =
    let s = snapshot n in
    if not s.healthy && int_eq s.active_rooms (pos 0)
    then (statuses, healthy)
    else (statuses ++ (s ∷ []), if s.healthy then suc healthy else healthy)

unfoldable pub count_nodes :
    EngineInstance → List ℤ → List EngineNodeStatus × ℕ → List EngineNodeStatus × ℕ
unfolding count_node get_node
count_nodes e [] acc = acc
count_nodes e (i ∷ is) acc = count_nodes e is (count_node (get_node e i) acc)

unfoldable pub get_status : EngineInstance → EngineStatus
unfolding count_nodes
get_status e =
    let (statuses, healthy) = count_nodes e (snapshot_pod_indices e) ([], 0) in
    record {
      total = length statuses;
      healthy = healthy;
      unhealthy = length statuses - healthy;
      nodes = statuses;
      replicas = e.replicas;
      namespace = e.namespace;
      service_name = e.headless_service_name;
      stateful_set_name = e.stateful_set_name;
      headless_service_name = e.headless_service_name;
    }
