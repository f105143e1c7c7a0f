-- ===== src/Examples/Clusters.antt =====
-- What the theorems of Engine/Health and Engine/Connect say of an engine with one pod.
use pokemon_simulator_server.Base.{
  ℕ, ◌≡◌, refl, String, true, none, some, Option, [], ℤ, pos, lookup, insert, erase, sort,
  nat_order, integer_eq,
}
use pokemon_simulator_server.Engine.Node.{EngineNode, is_connected, replace_connection}
use pokemon_simulator_server.Engine.Instance.{get_node}
use pokemon_simulator_server.Engine.Upkeep.{Cluster, reset_reconnect_failures_of, heartbeat_error}
use pokemon_simulator_server.Engine.Connect.{
  build_pod_dns_addr, Environment, backoff, connect_and_register_pod, register_pod, get_env_int,
  get_env_string,
}
use pokemon_simulator_server.Engine.Connect.Backoff.{backoff_lem}
use pokemon_simulator_server.Engine.Health.{
  Network, health_tick, shutdown, new_engine_instance, configured, connect_from,
}
use pokemon_simulator_server.Engine.Health.Keeps.{IsCluster}
use pokemon_simulator_server.Engine.Health.Steps.{Step, Life, Life-IsCluster}
use pokemon_simulator_server.Engine.Health.Shutdown.{get_node_by_room_id-IsCluster, shutdown_lem}
use pokemon_simulator_server.Rpc.Ring.{
  CppNode, empty_manager, removed, register_node, get_node_by_room_id, ring_index, found,
  rebuild_ring, add_nodes, add_points, virtual_key, itoa, decimal, node_at,
}
use pokemon_simulator_server.Rpc.Ring.Search.{search}
use pokemon_simulator_server.Examples.Data.{hash}

-- A network in which every pod is reached and none answers a heartbeat.
abbrev network : Network
network = record {
  dial = λ i addr. some 5;
  probe = λ i addr. none;
  heartbeat = λ i now. heartbeat_error "down";
  now = 1;
}

abbrev no_settings : Environment
no_settings key = ""

abbrev not_read : String → Option ℤ
not_read text = none

abbrev client_of : ℕ → ℕ
client_of conn = conn

abbrev started : Cluster
started = new_engine_instance hash client_of network no_settings not_read empty_manager

Life-IsCluster_example : IsCluster (health_tick hash client_of network started)
Life-IsCluster_example =
    Life-IsCluster hash client_of no_settings network not_read
      (Life.next Life.here (Step.ticked network started))

started-IsCluster : IsCluster started
started-IsCluster = Life-IsCluster hash client_of no_settings network not_read Life.here

shutdown_lem_example :
    ((shutdown hash started).instance_of.nodes ≡ [])
    × (lookup (pos 0) (shutdown hash started).mgr.nodes ≡ none)
shutdown_lem_example = shutdown_lem hash started (pos 0) started-IsCluster

backoff_lem_example : backoff 7 ≡ 30
backoff_lem_example = backoff_lem 7

abbrev pod_0 : CppNode
pod_0 = record {
  id = pos 0;
  addr = "pokemon-server-0.pokemon-server-headless.default.svc.cluster.local:50051";
  client = 5;
}

pod_0_found : get_node_by_room_id hash started.mgr "r" ≡ found (some pod_0)
unfolding new_engine_instance configured connect_from connect_and_register_pod register_pod
    get_env_int get_env_string build_pod_dns_addr get_node_by_room_id register_node rebuild_ring
    add_nodes add_points virtual_key itoa decimal insert erase lookup sort nat_order ring_index
    search node_at removed replace_connection reset_reconnect_failures_of get_node
pod_0_found = refl

get_node_by_room_id-IsCluster_example :
    (n : EngineNode) × (get_node started.instance_of (pos 0) ≡ some n)
    × (is_connected n ≡ true)
    × (n.client ≡ some 5)
    × (n.addr ≡ pod_0.addr)
get_node_by_room_id-IsCluster_example =
    get_node_by_room_id-IsCluster hash started "r" started-IsCluster pod_0_found
