-- ===== src/Engine/Upkeep.antt =====
-- internal/engine/manager.go: what the health check does to the instance and its nodes. The node
-- registry of internal/rpc and the callback that moves rooms are part of the state.
pub mod Failures
pub mod Shrink
use pokemon_simulator_server.Base.{
  ℕ, suc, ◌+◌, String, str_append, Bool, true, false, ◌&&◌, Option, none, some, List, [], ◌∷◌, ◌++◌,
  ℤ, pos, negsuc, int_le, int_lt, int_suc, int_pred, integer_eq, keys, lookup, insert, erase, ltb,
  leb, if◌then◌else◌,
}
use pokemon_simulator_server.Engine.Node.{
  EngineNode, HeartbeatStatus, mark_healthy, mark_unhealthy, close_conn,
  increment_reconnect_failures, reset_reconnect_failures,
}
use pokemon_simulator_server.Engine.Instance.{
  EngineInstance, get_node, get_status, snapshot_pod_indices,
}
use pokemon_simulator_server.Rpc.Ring.{NodeManager, remove_node, itoa}

-- The instance, rpc.Mgr, whether a callback is set, the instances that the callback was called on,
-- the connections that were closed, oldest first, and the goroutines of attemptReconnectLoop that
-- are running.
pub record Cluster : Type 0 where
  pub instance_of : EngineInstance
  pub mgr : NodeManager
  pub reassign_func : Bool
  pub reassigned : List EngineInstance
  pub closed : List ℕ
  pub loops : List (ℤ × String)

-- The answer of rpc.CallGetHeartbeat.
pub data Heartbeat : Type 0 where
  beat : HeartbeatStatus → Heartbeat
  heartbeat_error : String → Heartbeat

pub data CheckResult : Type 0 where
  checked : CheckResult
  check_error : String → CheckResult

-- A write to the node that the map holds under this index
abbrev pub put_node : Cluster → ℤ → EngineNode → Cluster
put_node c i n = record c {
  instance_of = record c.instance_of { nodes = insert i n c.instance_of.nodes };
}

-- triggerReassignRooms
unfoldable pub trigger_reassign_rooms : Cluster → Cluster
trigger_reassign_rooms c =
    if c.reassign_func then record c { reassigned = c.reassigned ++ (c.instance_of ∷ []) } else c

-- checkAndTriggerReassign
unfoldable pub check_and_trigger_reassign : Cluster → Cluster
check_and_trigger_reassign c =
    if ltb 0 (get_status c.instance_of).unhealthy then trigger_reassign_rooms c else c

-- updateMaxPodIndex
unfoldable pub update_max_pod_index : ℤ → EngineInstance → EngineInstance
update_max_pod_index i e = if int_lt e.max_pod_index i then record e { max_pod_index = i } else e

-- One turn of the loop of shrinkReplicaCountIfNeeded.
unfoldable pub raise : ℤ → Option EngineNode → ℤ → ℤ
raise i none top = top
raise i (some n) top = if n.healthy && int_lt top i then i else top

unfoldable pub max_healthy_index : EngineInstance → List ℤ → ℤ → ℤ
max_healthy_index e [] top = top
max_healthy_index e (i ∷ is) top = max_healthy_index e is (raise i (get_node e i) top)

unfoldable pub shrink_to : ℤ → EngineInstance → EngineInstance
shrink_to replicas e = if int_le e.replicas replicas then e else record e {
  replicas = replicas;
  max_pod_index = if int_le replicas e.max_pod_index then int_pred replicas else e.max_pod_index;
}

-- shrinkReplicaCountIfNeeded
unfoldable pub shrink_replica_count_if_needed : EngineInstance → EngineInstance
shrink_replica_count_if_needed e =
    let top = max_healthy_index e (snapshot_pod_indices e) (negsuc 0) in
    if int_lt top (pos 0) then e else shrink_to (int_suc top) e

module _ (crc32 : String → ℕ) where
  -- What deleteNode does with the connection of the node that it removed.
  unfoldable pub drop_connection : ℤ → Option ℕ → Cluster → Cluster
  drop_connection i none c = c
  drop_connection i (some conn) c = record c {
    mgr = remove_node crc32 c.mgr i;
    closed = c.closed ++ (conn ∷ []);
  }

  -- deleteNode
  unfoldable pub delete_node : ℤ → Cluster → Cluster
  delete_node i c = elim (lookup i c.instance_of.nodes) [
    | none ↦ c
    | some n ↦
        drop_connection i (close_conn n).1
          (record c { instance_of = record c.instance_of { nodes = erase i c.instance_of.nodes } })
  ]

  -- The two tests on the number of failures in recordReconnectFailure.
  unfoldable pub after_failure : ℤ → ℕ → Cluster → Cluster
  after_failure i failures c =
      let c' = if ltb 1 failures then trigger_reassign_rooms c else c in
      if leb 2 failures then delete_node i c' else c'

  -- recordReconnectFailure
  unfoldable pub record_reconnect_failure : ℤ → ℕ → Cluster → Cluster
  record_reconnect_failure i now c = elim (get_node c.instance_of i) [
    | none ↦ c
    | some n ↦
        let n' = increment_reconnect_failures n now in
        after_failure i n'.reconnect_failures (put_node c i n')
  ]

-- resetReconnectFailures of the instance
unfoldable pub reset_reconnect_failures_of : ℤ → Cluster → Cluster
reset_reconnect_failures_of i c = elim (get_node c.instance_of i) [
  | none ↦ c
  | some n ↦ put_node c i (reset_reconnect_failures n)
]

-- The heartbeat of a node that has a client.
unfoldable pub take_heartbeat : ℤ → EngineNode → Heartbeat → ℕ → Cluster → Cluster × CheckResult
take_heartbeat i n (heartbeat_error err) now c =
    (put_node c i (mark_unhealthy n err), check_error err)
take_heartbeat i n (beat hb) now c =
    let marked = mark_healthy n hb now in
    let c' = put_node c i marked.0 in (if marked.1 then trigger_reassign_rooms c' else c', checked)

unfoldable pub check_node :
    ℤ → EngineNode → Option ℕ → (ℕ → Heartbeat) → ℕ → Cluster → Cluster × CheckResult
check_node i n none call now c =
    (put_node c i (mark_unhealthy n "pod not connected"), check_error "pod not connected")
check_node i n (some client) call now c = take_heartbeat i n (call client) now c

-- checkSingleNode, where `call` is rpc.CallGetHeartbeat
unfoldable pub check_single_node : ℤ → (ℕ → Heartbeat) → ℕ → Cluster → Cluster × CheckResult
check_single_node i call now c = elim (get_node c.instance_of i) [
  | none ↦ (c, check_error (str_append "pod " (str_append (itoa i) " not found")))
  | some n ↦ check_node i n n.client call now c
]
