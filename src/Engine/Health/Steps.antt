-- ===== src/Engine/Health/Steps.antt =====
-- internal/engine/manager.go: the life of an engine, from NewEngineInstance on: ticks of the health
-- check, discoveries and turns of the reconnecting goroutines, in any order.
use pokemon_simulator_server.Base.{
  ℕ, zero, suc, ◌+◌, ◌≡◌, refl, String, Bool, true, false, Option, none, some, List, [], ◌∷◌, ◌++◌,
  ℤ, pos, arith, integer_eq, lookup, All-lookup, Bool-cases, Option-cases, inl, inr, if◌then◌else◌,
  str_eq, ltb,
}
use pokemon_simulator_server.Engine.Node.{EngineNode, is_connected}
use pokemon_simulator_server.Engine.Instance.{EngineInstance, get_node, get_status}
use pokemon_simulator_server.Engine.Upkeep.{
  Cluster, CheckResult, checked, check_error, trigger_reassign_rooms,
  shrink_replica_count_if_needed, shrink_to, check_and_trigger_reassign, update_max_pod_index,
}
use pokemon_simulator_server.Engine.Connect.{
  Environment, ReconnectResult, reconnected, reconnect_in_progress, reconnect_scheduled,
  reconnect_no_pod, connect_and_register_pod, attempt_reconnect,
}
use pokemon_simulator_server.Engine.Health.{
  Network, rounds, ensure_node, ensure_from, ensure_connected, after_reconnect, after_check,
  check_round, check_all, check_heartbeat, health_tick, adopt_pod, probe_pod, discover_round,
  discover_from, discover_new_pods, connect_from, configured, new_engine_instance,
}
use pokemon_simulator_server.Engine.Health.Coherent.{entry_of}
use pokemon_simulator_server.Engine.Health.Keeps.{
  IsCluster, check_single_node-IsCluster, record_reconnect_failure-IsCluster,
  connect_and_register_pod-IsCluster, reconnect-IsCluster, attempt_reconnect-IsCluster,
}
use pokemon_simulator_server.Rpc.Ring.{empty_manager}

shrink-nodes : (e : EngineInstance) → (shrink_replica_count_if_needed e).nodes ≡ e.nodes
unfolding shrink_replica_count_if_needed shrink_to
shrink-nodes e = ground arith

update_max_pod_index-nodes :
    (i : ℤ) (e : EngineInstance) → (update_max_pod_index i e).nodes ≡ e.nodes
unfolding update_max_pod_index
update_max_pod_index-nodes i e = ground arith

check_and_trigger-IsCluster : (c : Cluster) → IsCluster c → IsCluster (check_and_trigger_reassign c)
unfolding check_and_trigger_reassign trigger_reassign_rooms
check_and_trigger-IsCluster c w = elim (Bool-cases (ltb 0 (get_status c.instance_of).unhealthy)) [
  | inr q ↦ rw q w
  | inl q ↦ rw q (elim (Bool-cases c.reassign_func) [ inl r ↦ rw r w | inr r ↦ rw r w ])
]

module _ (crc32 : String → ℕ) (new_client : ℕ → ℕ) (net : Network) where
  ensure_node-idle :
      (i : ℕ) (c : Cluster)
      → IsCluster c
      → ensure_node crc32 new_client net i (get_node c.instance_of (pos i)) c ≡ c
  unfolding ensure_node get_node
  ensure_node-idle i c w = elim (Option-cases (lookup (pos i) c.instance_of.nodes)) [
    | inl q ↦ rw (q, ensure_node) refl
    | inr (n, q) ↦
        let linked : is_connected n ≡ true =
          All-lookup _ (pos i) c.instance_of.nodes w.connected q in
        rw (q, ensure_node, linked) refl
  ]

  ensure_from-idle :
      (left i : ℕ) (c : Cluster) → IsCluster c → ensure_from crc32 new_client net left i c ≡ c
  unfolding ensure_from
  ensure_from-idle zero i c w = refl
  ensure_from-idle (suc left) i c w =
      rw (ensure_node-idle i c w) (ensure_from-idle left (i + 1) c w)

  -- While the instance and rpc.Mgr agree, ensureConnected does nothing: a node is connected from its
  -- registration to its removal, so there is never a disconnected one to reconnect.
  ensure_connected-idle : (c : Cluster) → IsCluster c → ensure_connected crc32 new_client net c ≡ c
  unfolding ensure_connected
  ensure_connected-idle c w = ensure_from-idle (rounds c.instance_of.replicas) 0 c w

  after_reconnect-IsCluster :
      (i : ℤ) (s : Cluster × ReconnectResult)
      → IsCluster s.0
      → IsCluster (after_reconnect crc32 new_client net i s)
  unfolding after_reconnect
  after_reconnect-IsCluster i (c, reconnected) w = w
  after_reconnect-IsCluster i (c, reconnect_in_progress) w =
      record_reconnect_failure-IsCluster crc32 i net.now c w
  after_reconnect-IsCluster i (c, reconnect_scheduled) w =
      record_reconnect_failure-IsCluster crc32 i net.now c w
  after_reconnect-IsCluster i (c, reconnect_no_pod) w =
      record_reconnect_failure-IsCluster crc32 i net.now c w

  after_check-IsCluster :
      (i : ℤ) (addr : String) (s : Cluster × CheckResult)
      → IsCluster s.0
      → IsCluster (after_check crc32 new_client net i addr s)
  unfolding after_check
  after_check-IsCluster i addr (c, checked) w = w
  after_check-IsCluster i addr (c, check_error err) w = elim (Bool-cases (str_eq addr "")) [
    | inl q ↦ rw q w
    | inr q ↦ rw q (
        after_reconnect-IsCluster i _
          (reconnect-IsCluster crc32 new_client i addr (net.dial i addr) net.now c w))
  ]

  check_round-IsCluster :
      (i : ℤ) (o : Option EngineNode) (c : Cluster)
      → IsCluster c
      → IsCluster (check_round crc32 new_client net i o c)
  unfolding check_round
  check_round-IsCluster i none c w = w
  check_round-IsCluster i (some n) c w =
      after_check-IsCluster i n.addr _ (check_single_node-IsCluster i (net.heartbeat i) net.now c w)

  check_all-IsCluster :
      (is : List ℤ) (c : Cluster) → IsCluster c → IsCluster (check_all crc32 new_client net is c)
  unfolding check_all
  check_all-IsCluster [] c w = w
  check_all-IsCluster (i ∷ is) c w = check_all-IsCluster is _ (check_round-IsCluster i _ c w)

  health_tick-IsCluster :
      (c : Cluster) → IsCluster c → IsCluster (health_tick crc32 new_client net c)
  unfolding health_tick check_heartbeat
  health_tick-IsCluster c w =
      let c' : Cluster = check_heartbeat crc32 new_client net c in
      let w' : IsCluster c' = check_all-IsCluster _ c w in
      rw (ensure_connected-idle c w)
        (check_and_trigger-IsCluster _ (rw (shrink-nodes c'.instance_of) w'))

  adopt_pod-IsCluster :
      (i : ℕ) (addr : String) (conn : ℕ) (c : Cluster)
      → IsCluster c
      → IsCluster (adopt_pod crc32 new_client net i addr conn c)
  unfolding adopt_pod
  adopt_pod-IsCluster i addr conn c w =
      let d : Cluster = record c { closed = c.closed ++ (conn ∷ []) } in
      let tried =
        connect_and_register_pod crc32 new_client (pos i) addr (net.dial (pos i) addr) net.now d in
      let w' : IsCluster tried.0 =
        connect_and_register_pod-IsCluster crc32 new_client (pos i) addr (net.dial (pos i) addr)
          net.now d w in
      elim (Bool-cases tried.1) [
        | inr q ↦ rw q w'
        | inl q ↦ rw (q, update_max_pod_index-nodes (pos i) tried.0.instance_of) w'
      ]

  probe_pod-IsCluster :
      (i : ℕ) (addr : String) (o : Option ℕ) (c : Cluster)
      → IsCluster c
      → IsCluster (probe_pod crc32 new_client net i addr o c)
  unfolding probe_pod
  probe_pod-IsCluster i addr none c w = w
  probe_pod-IsCluster i addr (some conn) c w = adopt_pod-IsCluster i addr conn c w

  module _ (env : Environment) where
    discover_round-IsCluster :
        (i : ℕ) (o : Option EngineNode) (c : Cluster)
        → IsCluster c
        → IsCluster (discover_round crc32 new_client net env i o c)
    unfolding discover_round
    discover_round-IsCluster i none c w = probe_pod-IsCluster i _ _ c w
    discover_round-IsCluster i (some n) c w = w

    discover_from-IsCluster :
        (left i : ℕ) (c : Cluster)
        → IsCluster c
        → IsCluster (discover_from crc32 new_client net env left i c)
    unfolding discover_from
    discover_from-IsCluster zero i c w = w
    discover_from-IsCluster (suc left) i c w =
        discover_from-IsCluster left (i + 1) _ (discover_round-IsCluster i _ c w)

    discover_new_pods-IsCluster :
        (c : Cluster) → IsCluster c → IsCluster (discover_new_pods crc32 new_client net env c)
    unfolding discover_new_pods
    discover_new_pods-IsCluster c w = discover_from-IsCluster _ 0 c w

    connect_from-IsCluster :
        (left i : ℕ) (c : Cluster)
        → IsCluster c
        → IsCluster (connect_from crc32 new_client net env left i c)
    unfolding connect_from
    connect_from-IsCluster zero i c w = w
    connect_from-IsCluster (suc left) i c w =
        connect_from-IsCluster left (i + 1) _
          (connect_and_register_pod-IsCluster crc32 new_client (pos i) _ _ net.now c w)

    new_engine_instance-IsCluster :
        (atoi : String → Option ℤ)
        → IsCluster (new_engine_instance crc32 new_client net env atoi empty_manager)
    unfolding new_engine_instance configured entry_of lookup
    new_engine_instance-IsCluster atoi = connect_from-IsCluster _ 0 _ (record {
      named = tt;
      connected = tt;
      ring = record { sorted = tt; points = tt; size = refl; named = tt };
      agrees = λ i. refl;
    })

-- The goroutine of attemptReconnectLoop is gone once its loop has ended.
abbrev pub after_turn : List (ℤ × String) → List (ℤ × String) → Cluster × Bool → Cluster
after_turn before after (c, ended) = if ended then record c { loops = before ++ after } else c

-- What may happen to an engine; the network is another at each step.
pub data Step (crc32 : String → ℕ) (new_client : ℕ → ℕ) (env : Environment)
    : Cluster → Cluster → Type 0 where
  ticked :
      (net : Network) (c : Cluster)
      → Step crc32 new_client env c (health_tick crc32 new_client net c)
  discovered :
      (net : Network) (c : Cluster)
      → Step crc32 new_client env c (discover_new_pods crc32 new_client net env c)
  turned :
      (before : List (ℤ × String)) (i : ℤ) (addr : String) (after : List (ℤ × String))
      (cancelled : Bool) (dialled : Option ℕ) (now : ℕ) (c : Cluster)
      → c.loops ≡ before ++ (i, addr) ∷ after
      → Step crc32 new_client env c (
          after_turn before after
            (attempt_reconnect crc32 new_client i addr cancelled dialled now c))
  callback_set : (c : Cluster) → Step crc32 new_client env c (record c { reassign_func = true })

pub data Life (crc32 : String → ℕ) (new_client : ℕ → ℕ) (env : Environment) (c : Cluster)
    : Cluster → Type 0 where
  here : Life crc32 new_client env c c
  next :
      {d e : Cluster}
      → Life crc32 new_client env c d
      → Step crc32 new_client env d e
      → Life crc32 new_client env c e

module _ (crc32 : String → ℕ) (new_client : ℕ → ℕ) (env : Environment) where
  after_turn-IsCluster :
      (before after : List (ℤ × String)) (s : Cluster × Bool)
      → IsCluster s.0
      → IsCluster (after_turn before after s)
  after_turn-IsCluster before after (c, true) w = w
  after_turn-IsCluster before after (c, false) w = w

  Step-IsCluster : {c d : Cluster} → Step crc32 new_client env c d → IsCluster c → IsCluster d
  Step-IsCluster (ticked net c) w = health_tick-IsCluster crc32 new_client net c w
  Step-IsCluster (discovered net c) w = discover_new_pods-IsCluster crc32 new_client net env c w
  Step-IsCluster (turned before i addr after cancelled dialled now c q) w =
      after_turn-IsCluster before after _
        (attempt_reconnect-IsCluster crc32 new_client i addr cancelled dialled now c w)
  Step-IsCluster (callback_set c) w = w

  Life-steps : {c d : Cluster} → Life crc32 new_client env c d → IsCluster c → IsCluster d
  Life-steps here w = w
  Life-steps (next l s) w = Step-IsCluster s (Life-steps l w)

  -- From NewEngineInstance on an empty rpc.Mgr, whatever the network answers and in whatever order
  -- ticks, discoveries and turns of reconnecting goroutines come, the instance and rpc.Mgr agree: every
  -- node stands under its own index and is connected, and rpc.Mgr holds exactly these nodes, each with
  -- the same address and client, on a ring that is whole.
  pub Life-IsCluster :
      (net : Network) (atoi : String → Option ℤ) {c : Cluster}
      → Life crc32 new_client env
          (new_engine_instance crc32 new_client net env atoi empty_manager)
          c
      → IsCluster c
  Life-IsCluster net atoi l =
      Life-steps l (new_engine_instance-IsCluster crc32 new_client net env atoi)
