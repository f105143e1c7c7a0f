-- ===== src/Engine/Health.antt =====
-- internal/engine/manager.go: the loops of the health check, discovery, start and shutdown. What a
-- dial and a heartbeat answer is a function of the pod, for one pass of a loop.
pub mod Coherent
pub mod Keeps
pub mod Steps
pub mod Shutdown
use pokemon_simulator_server.Base.{
  ℕ, zero, suc, ◌+◌, String, str_append, str_eq, Bool, true, false, ◌||◌, Option, none, some, List,
  [], ◌∷◌, ◌++◌, ℤ, pos, negsuc, int_suc, int_pred, integer_eq, lookup, if◌then◌else◌,
}
use pokemon_simulator_server.Engine.Node.{EngineNode, is_connected, close_conn}
use pokemon_simulator_server.Engine.Instance.{EngineInstance, get_node, snapshot_pod_indices}
use pokemon_simulator_server.Engine.Upkeep.{
  Cluster, Heartbeat, CheckResult, checked, check_error, put_node, check_single_node,
  record_reconnect_failure, drop_connection, shrink_replica_count_if_needed,
  check_and_trigger_reassign, update_max_pod_index,
}
use pokemon_simulator_server.Engine.Connect.{
  Environment, get_env_string, get_env_int, build_pod_dns_addr, ReconnectResult, reconnected,
  connect_and_register_pod, reconnect,
}
use pokemon_simulator_server.Rpc.Ring.{NodeManager}

-- What the network answers in one pass.
pub record Network : Type 0 where
  pub dial : ℤ → String → Option ℕ
  pub probe : ℤ → String → Option ℕ
  pub heartbeat : ℤ → ℕ → Heartbeat
  pub now : ℕ

-- How often `for i := 0; i < n; i++` runs.
abbrev pub rounds : ℤ → ℕ
rounds (pos n) = n
rounds (negsuc n) = 0

abbrev pub int_plus : ℤ → ℕ → ℤ
int_plus i zero = i
int_plus i (suc n) = int_suc (int_plus i n)

module _ (crc32 : String → ℕ) where
  -- One round of the loop of Shutdown.
  unfoldable pub close_round : ℤ → Option EngineNode → Cluster → Cluster
  close_round i none c = c
  close_round i (some n) c =
      let closed = close_conn n in drop_connection crc32 i closed.1 (put_node c i closed.0)

  unfoldable pub close_all : List ℤ → Cluster → Cluster
  close_all [] c = c
  close_all (i ∷ is) c = close_all is (close_round i (get_node c.instance_of i) c)

  -- Shutdown
  unfoldable pub shutdown : Cluster → Cluster
  shutdown c =
      let c' = close_all (snapshot_pod_indices c.instance_of) c in
      record c' { instance_of = record c'.instance_of { nodes = [] } }

module _ (crc32 : String → ℕ) (new_client : ℕ → ℕ) (net : Network) where
  -- One round of ensureConnected.
  unfoldable pub ensure_node : ℕ → Option EngineNode → Cluster → Cluster
  ensure_node i none c = c
  ensure_node i (some n) c =
      if is_connected n || n.reconnecting
      then c
      else if str_eq n.addr ""
      then c
      else (reconnect crc32 new_client (pos i) n.addr (net.dial (pos i) n.addr) net.now c).0

  unfoldable pub ensure_from : ℕ → ℕ → Cluster → Cluster
  ensure_from zero i c = c
  ensure_from (suc left) i c =
      ensure_from left (i + 1) (ensure_node i (get_node c.instance_of (pos i)) c)

  -- ensureConnected
  unfoldable pub ensure_connected : Cluster → Cluster
  ensure_connected c = ensure_from (rounds c.instance_of.replicas) 0 c

  -- What follows a failed reconnection in checkHeartbeat.
  unfoldable pub after_reconnect : ℤ → Cluster × ReconnectResult → Cluster
  after_reconnect i (c, reconnected) = c
  after_reconnect i (c, err) = record_reconnect_failure crc32 i net.now c

  unfoldable pub after_check : ℤ → String → Cluster × CheckResult → Cluster
  after_check i addr (c, checked) = c
  after_check i addr (c, check_error err) =
      if str_eq addr ""
      then c
      else after_reconnect i (reconnect crc32 new_client i addr (net.dial i addr) net.now c)

  -- One round of checkHeartbeat.
  unfoldable pub check_round : ℤ → Option EngineNode → Cluster → Cluster
  check_round i none c = c
  check_round i (some n) c = after_check i n.addr (check_single_node i (net.heartbeat i) net.now c)

  unfoldable pub check_all : List ℤ → Cluster → Cluster
  check_all [] c = c
  check_all (i ∷ is) c = check_all is (check_round i (get_node c.instance_of i) c)

  -- checkHeartbeat
  unfoldable pub check_heartbeat : Cluster → Cluster
  check_heartbeat c = check_all (snapshot_pod_indices c.instance_of) c

  -- One tick of healthCheckLoop.
  unfoldable pub health_tick : Cluster → Cluster
  health_tick c =
      let c' = check_heartbeat (ensure_connected c) in
      check_and_trigger_reassign
        (record c' { instance_of = shrink_replica_count_if_needed c'.instance_of })

  -- A pod that answered the probe: the probe's connection is closed, and a proper one is made.
  unfoldable pub adopt_pod : ℕ → String → ℕ → Cluster → Cluster
  adopt_pod i addr conn c =
      let tried =
        connect_and_register_pod crc32 new_client (pos i) addr (net.dial (pos i) addr) net.now
          (record c { closed = c.closed ++ (conn ∷ []) }) in
      if tried.1
      then record tried.0 { instance_of = update_max_pod_index (pos i) tried.0.instance_of }
      else tried.0

  unfoldable pub probe_pod : ℕ → String → Option ℕ → Cluster → Cluster
  probe_pod i addr none c = c
  probe_pod i addr (some conn) c = adopt_pod i addr conn c

  module _ (env : Environment) where
    -- One round of discoverNewPods.
    unfoldable pub discover_round : ℕ → Option EngineNode → Cluster → Cluster
    discover_round i (some n) c = c
    discover_round i none c =
        let addr = build_pod_dns_addr env c.instance_of (pos i) in
        probe_pod i addr (net.probe (pos i) addr) c

    unfoldable pub discover_from : ℕ → ℕ → Cluster → Cluster
    discover_from zero i c = c
    discover_from (suc left) i c =
        discover_from left (i + 1) (discover_round i (get_node c.instance_of (pos i)) c)

    -- discoverNewPods
    unfoldable pub discover_new_pods : Cluster → Cluster
    discover_new_pods c = discover_from (rounds (int_plus c.instance_of.max_pod_index 11)) 0 c

    -- The first connections of NewEngineInstance.
    unfoldable pub connect_from : ℕ → ℕ → Cluster → Cluster
    connect_from zero i c = c
    connect_from (suc left) i c =
        let addr = build_pod_dns_addr env c.instance_of (pos i) in
        connect_from left (i + 1)
          (connect_and_register_pod crc32 new_client (pos i) addr (net.dial (pos i) addr) net.now
            c).0

    -- NewEngineInstance, before its goroutine starts; `mgr` is rpc.Mgr.
    unfoldable pub configured : (String → Option ℤ) → EngineInstance
    configured atoi =
        let replicas = get_env_int env atoi "K8S_ENGINE_REPLICAS" (pos 1) in
        let stateful_set_name = get_env_string env "K8S_ENGINE_STATEFULSET" "pokemon-server" in
        record {
          replicas = replicas;
          namespace = get_env_string env "K8S_ENGINE_NAMESPACE" "default";
          stateful_set_name = stateful_set_name;
          headless_service_name =
              get_env_string env "K8S_ENGINE_HEADLESS_SERVICE"
                (str_append stateful_set_name "-headless");
          max_pod_index = int_pred replicas;
          nodes = [];
        }

    unfoldable pub new_engine_instance : (String → Option ℤ) → NodeManager → Cluster
    new_engine_instance atoi mgr = connect_from (rounds (configured atoi).replicas) 0 (record {
      instance_of = configured atoi;
      mgr = mgr;
      reassign_func = false;
      reassigned = [];
      closed = [];
      loops = [];
    })
