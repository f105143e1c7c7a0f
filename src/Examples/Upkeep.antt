-- ===== src/Examples/Upkeep.antt =====
-- What the theorems of Engine/Upkeep say of an engine whose nodes fail.
use pokemon_simulator_server.Base.{
  ℕ, ◌≡◌, refl, true, some, none, [], ◌∷◌, pos, int_lt, lookup, integer_eq, arith,
}
use pokemon_simulator_server.Engine.Node.{EngineNode, increment_reconnect_failures}
use pokemon_simulator_server.Engine.Instance.{EngineInstance, get_node}
use pokemon_simulator_server.Rpc.Ring.{empty_manager}
use pokemon_simulator_server.Engine.Upkeep.{
  Cluster, Heartbeat, beat, put_node, record_reconnect_failure, check_single_node,
  shrink_replica_count_if_needed,
}
use pokemon_simulator_server.Engine.Upkeep.Failures.{
  record_reconnect_failure_later, Checks, check_single_node_lem,
}
use pokemon_simulator_server.Engine.Upkeep.Shrink.{shrink-keeps}
use pokemon_simulator_server.Examples.Data.{hash, engine, engine_of, idle_node, down_node}

abbrev failing_node : EngineNode
failing_node = record down_node { reconnect_failures = 1; conn = some 5 }

abbrev failing : EngineInstance
failing = engine_of ((pos 2, failing_node) ∷ (pos 1, idle_node) ∷ [])

abbrev cluster_of : EngineInstance → Cluster
cluster_of e = record {
  instance_of = e;
  mgr = empty_manager;
  reassign_func = true;
  reassigned = [];
  closed = [];
  loops = [];
}

down_found : get_node engine (pos 2) ≡ some down_node
unfolding get_node lookup
down_found = refl

failing_found : get_node failing (pos 2) ≡ some failing_node
unfolding get_node lookup
failing_found = refl

idle_found : get_node failing (pos 1) ≡ some idle_node
unfolding get_node lookup
idle_found = refl

record_reconnect_failure_later_example :
    let d = record_reconnect_failure hash (pos 2) 9 (cluster_of failing) in
    let e =
      (put_node
        (cluster_of failing)
        (pos 2)
        (increment_reconnect_failures failing_node 9)).instance_of in
    (get_node d.instance_of (pos 2) ≡ none)
    × (d.reassigned ≡ e ∷ [])
    × (get_node e (pos 2) ≡ some (increment_reconnect_failures failing_node 9))
record_reconnect_failure_later_example =
    record_reconnect_failure_later hash (pos 2) 9 (cluster_of failing) failing_node failing_found
      (omega arith)

abbrev heartbeat : ℕ → Heartbeat
heartbeat client = beat (record {
  code = pos 0;
  active_rooms = pos 3;
  cpu_usage = 0;
  memory_used = 0;
  max_capacity = pos 10;
  server_id = "restarted";
})

check_single_node_lem_example :
    Checks (pos 1) (check_single_node (pos 1) heartbeat 9 (cluster_of failing))
check_single_node_lem_example =
    check_single_node_lem (pos 1) heartbeat 9 (cluster_of failing) idle_node idle_found

shrink-keeps_example : int_lt (pos 1) (shrink_replica_count_if_needed failing).replicas ≡ true
shrink-keeps_example = shrink-keeps failing (pos 1) idle_node idle_found refl refl
