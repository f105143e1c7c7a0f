-- ===== src/Engine/Health/Keeps.antt =====
-- internal/engine/manager.go: heartbeats, failures and connections keep the instance and rpc.Mgr in
-- agreement.
use pokemon_simulator_server.Base.{
  ℕ, ◌≡◌, refl, String, Bool, true, false, Option, none, some, ℤ, integer_eq, lookup, All-lookup,
  Bool-cases, Option-cases, inl, inr, if◌then◌else◌, ltb, leb,
}
use pokemon_simulator_server.Engine.Node.{
  EngineNode, is_connected, mark_healthy, mark_unhealthy, replace_connection, close_conn,
  increment_reconnect_failures, reset_reconnect_failures,
}
use pokemon_simulator_server.Engine.Instance.{get_node}
use pokemon_simulator_server.Engine.Upkeep.{
  Cluster, Heartbeat, beat, heartbeat_error, put_node, trigger_reassign_rooms, drop_connection,
  delete_node, after_failure, record_reconnect_failure, reset_reconnect_failures_of, take_heartbeat,
  check_node, check_single_node,
}
use pokemon_simulator_server.Engine.Connect.{
  set_reconnecting, clear_reconnecting, node_or_new, register_pod, connect_and_register_pod,
  reconnect_marked, reconnect, attempt_reconnect,
}
use pokemon_simulator_server.Engine.Health.Coherent.{
  IsCoherent, SameLink, entry_of, entry_at, put-IsCoherent, register-IsCoherent, remove-IsCoherent,
}

abbrev pub IsCluster : Cluster → Type 0
IsCluster c = IsCoherent c.instance_of.nodes c.mgr

-- A write to a registered node that rpc.Mgr does not know of.
put_node-IsCluster :
    (i : ℤ) (n m : EngineNode) (c : Cluster)
    → get_node c.instance_of i ≡ some n
    → SameLink n m
    → IsCluster c
    → IsCluster (put_node c i m)
unfolding get_node
put_node-IsCluster i n m c q l w = put-IsCoherent i n m c.instance_of.nodes c.mgr q l w

trigger_reassign_rooms-IsCluster :
    (c : Cluster) → IsCluster c → IsCluster (trigger_reassign_rooms c)
unfolding trigger_reassign_rooms
trigger_reassign_rooms-IsCluster c w = elim (Bool-cases c.reassign_func) [
  | inl q ↦ rw q w
  | inr q ↦ rw q w
]

reset_reconnect_failures_of-IsCluster :
    (i : ℤ) (c : Cluster) → IsCluster c → IsCluster (reset_reconnect_failures_of i c)
unfolding reset_reconnect_failures_of reset_reconnect_failures
reset_reconnect_failures_of-IsCluster i c w = elim (Option-cases (get_node c.instance_of i)) [
  | inl q ↦ rw (q, reset_reconnect_failures_of) w
  | inr (n, q) ↦
      rw (q, reset_reconnect_failures_of)
        (put_node-IsCluster i n _ c q
          (record { same_index = refl; same_addr = refl; same_client = refl; same_conn = refl }) w)
]

set_reconnecting-IsCluster :
    (i : ℤ) (n : EngineNode) (b : Bool) (c : Cluster)
    → get_node c.instance_of i ≡ some n
    → IsCluster c
    → IsCluster (set_reconnecting i n b c)
set_reconnecting-IsCluster i n b c q w =
    put_node-IsCluster i n _ c q
      (record { same_index = refl; same_addr = refl; same_client = refl; same_conn = refl }) w

clear_reconnecting-IsCluster :
    (i : ℤ) (c : Cluster) → IsCluster c → IsCluster (clear_reconnecting i c)
unfolding clear_reconnecting
clear_reconnecting-IsCluster i c w = elim (Option-cases (get_node c.instance_of i)) [
  | inl q ↦ rw (q, clear_reconnecting) w
  | inr (n, q) ↦ rw (q, clear_reconnecting) (set_reconnecting-IsCluster i n false c q w)
]

take_heartbeat-IsCluster :
    (i : ℤ) (n : EngineNode) (h : Heartbeat) (now : ℕ) (c : Cluster)
    → get_node c.instance_of i ≡ some n
    → IsCluster c
    → IsCluster (take_heartbeat i n h now c).0
unfolding take_heartbeat mark_unhealthy mark_healthy
take_heartbeat-IsCluster i n (heartbeat_error err) now c q w =
    put_node-IsCluster i n _ c q
      (record { same_index = refl; same_addr = refl; same_client = refl; same_conn = refl }) w
take_heartbeat-IsCluster i n (beat hb) now c q w =
    let w' : IsCluster (put_node c i (mark_healthy n hb now).0) =
      put_node-IsCluster i n _ c q
        (record { same_index = refl; same_addr = refl; same_client = refl; same_conn = refl }) w in
    if_trigger (mark_healthy n hb now).1 _ w'
  where
    if_trigger :
        (b : Bool) (d : Cluster)
        → IsCluster d
        → IsCluster (if b then trigger_reassign_rooms d else d)
    if_trigger true d v = trigger_reassign_rooms-IsCluster d v
    if_trigger false d v = v

check_node-IsCluster :
    (i : ℤ) (n : EngineNode) (client : Option ℕ) (call : ℕ → Heartbeat) (now : ℕ) (c : Cluster)
    → get_node c.instance_of i ≡ some n
    → IsCluster c
    → IsCluster (check_node i n client call now c).0
unfolding check_node mark_unhealthy
check_node-IsCluster i n none call now c q w =
    put_node-IsCluster i n _ c q
      (record { same_index = refl; same_addr = refl; same_client = refl; same_conn = refl }) w
check_node-IsCluster i n (some client) call now c q w =
    take_heartbeat-IsCluster i n (call client) now c q w

pub check_single_node-IsCluster :
    (i : ℤ) (call : ℕ → Heartbeat) (now : ℕ) (c : Cluster)
    → IsCluster c
    → IsCluster (check_single_node i call now c).0
unfolding check_single_node
check_single_node-IsCluster i call now c w = elim (Option-cases (get_node c.instance_of i)) [
  | inl q ↦ rw (q, check_single_node) w
  | inr (n, q) ↦ rw (q, check_single_node) (check_node-IsCluster i n n.client call now c q w)
]

pub connected-conn : (n : EngineNode) → is_connected n ≡ true → (conn : ℕ) × (n.conn ≡ some conn)
unfolding is_connected
connected-conn n h = elim (Option-cases n.conn) [ inl q ↦ absurd (cc (rw q at h)) | inr r ↦ r ]

module _ (crc32 : String → ℕ) where
  delete_node-IsCluster : (i : ℤ) (c : Cluster) → IsCluster c → IsCluster (delete_node crc32 i c)
  unfolding delete_node drop_connection close_conn
  delete_node-IsCluster i c w = elim (Option-cases (lookup i c.instance_of.nodes)) [
    | inl q ↦ rw (q, delete_node) w
    | inr (n, q) ↦
        let (conn, r) = connected-conn n (All-lookup _ i c.instance_of.nodes w.connected q) in
        rw (q, r, delete_node, drop_connection)
          (remove-IsCoherent crc32 i c.instance_of.nodes c.mgr w)
  ]

  after_failure-IsCluster :
      (i : ℤ) (failures : ℕ) (c : Cluster)
      → IsCluster c
      → IsCluster (after_failure crc32 i failures c)
  unfolding after_failure
  after_failure-IsCluster i failures c w = elim (Bool-cases (ltb 1 failures)) [
    | inl a ↦ elim (Bool-cases (leb 2 failures)) [
      | inl b ↦ rw (a, b) (delete_node-IsCluster i _ (trigger_reassign_rooms-IsCluster c w))
      | inr b ↦ rw (a, b) (trigger_reassign_rooms-IsCluster c w)
    ]
    | inr a ↦ elim (Bool-cases (leb 2 failures)) [
      | inl b ↦ rw (a, b) (delete_node-IsCluster i c w)
      | inr b ↦ rw (a, b) w
    ]
  ]

  pub record_reconnect_failure-IsCluster :
      (i : ℤ) (now : ℕ) (c : Cluster)
      → IsCluster c
      → IsCluster (record_reconnect_failure crc32 i now c)
  unfolding record_reconnect_failure increment_reconnect_failures
  record_reconnect_failure-IsCluster i now c w = elim (Option-cases (get_node c.instance_of i)) [
    | inl q ↦ rw (q, record_reconnect_failure) w
    | inr (n, q) ↦
        rw (q, record_reconnect_failure)
          (after_failure-IsCluster i _ _ (
            put_node-IsCluster i n _ c q
              (record { same_index = refl; same_addr = refl; same_client = refl; same_conn = refl })
              w))
  ]

  module _ (new_client : ℕ → ℕ) where
    register_pod-IsCluster :
        (i : ℤ) (addr : String) (n : EngineNode) (conn now : ℕ) (c : Cluster)
        → n.pod_index ≡ i
        → IsCluster c
        → IsCluster (register_pod crc32 new_client i addr n conn now c)
    unfolding register_pod replace_connection entry_of entry_at is_connected
    register_pod-IsCluster i addr n conn now c own w =
        register-IsCoherent crc32 i _ addr (new_client conn) c.instance_of.nodes c.mgr own refl refl
          w

    node_or_new-index :
        (i : ℤ) (c : Cluster) → IsCluster c → (node_or_new c.instance_of i).pod_index ≡ i
    node_or_new-index i c w = elim (Option-cases (lookup i c.instance_of.nodes)) [
      | inl q ↦ rw (q, node_or_new) refl
      | inr (n, q) ↦ rw (q, node_or_new) (All-lookup _ i c.instance_of.nodes w.named q)
    ]

    pub connect_and_register_pod-IsCluster :
        (i : ℤ) (addr : String) (dialled : Option ℕ) (now : ℕ) (c : Cluster)
        → IsCluster c
        → IsCluster (connect_and_register_pod crc32 new_client i addr dialled now c).0
    unfolding connect_and_register_pod
    connect_and_register_pod-IsCluster i addr none now c w = w
    connect_and_register_pod-IsCluster i addr (some conn) now c w =
        reset_reconnect_failures_of-IsCluster i _
          (register_pod-IsCluster i addr _ conn now c (node_or_new-index i c w) w)

    reconnect_marked-IsCluster :
        (i : ℤ) (addr : String) (dialled : Option ℕ) (now : ℕ) (c : Cluster)
        → IsCluster c
        → IsCluster (reconnect_marked crc32 new_client i addr dialled now c).0
    unfolding reconnect_marked
    reconnect_marked-IsCluster i addr dialled now c w =
        let w' = connect_and_register_pod-IsCluster i addr dialled now c w in
        elim (Bool-cases (connect_and_register_pod crc32 new_client i addr dialled now c).1) [
          | inl q ↦ rw q (clear_reconnecting-IsCluster i _ w')
          | inr q ↦ rw q w'
        ]

    pub reconnect-IsCluster :
        (i : ℤ) (addr : String) (dialled : Option ℕ) (now : ℕ) (c : Cluster)
        → IsCluster c
        → IsCluster (reconnect crc32 new_client i addr dialled now c).0
    unfolding reconnect
    reconnect-IsCluster i addr dialled now c w = elim (Option-cases (get_node c.instance_of i)) [
      | inl q ↦ rw (q, reconnect) w
      | inr (n, q) ↦
          rw (q, reconnect)
            (elim (Bool-cases n.reconnecting) [
              | inl busy ↦ rw busy w
              | inr free ↦ rw free (
                  reconnect_marked-IsCluster i addr dialled now _
                    (set_reconnecting-IsCluster i n true c q w))
            ])
    ]

    pub attempt_reconnect-IsCluster :
        (i : ℤ) (addr : String) (cancelled : Bool) (dialled : Option ℕ) (now : ℕ) (c : Cluster)
        → IsCluster c
        → IsCluster (attempt_reconnect crc32 new_client i addr cancelled dialled now c).0
    unfolding attempt_reconnect
    attempt_reconnect-IsCluster i addr true dialled now c w = clear_reconnecting-IsCluster i c w
    attempt_reconnect-IsCluster i addr false dialled now c w =
        let w' = connect_and_register_pod-IsCluster i addr dialled now c w in
        elim (Bool-cases (connect_and_register_pod crc32 new_client i addr dialled now c).1) [
          | inl q ↦
              rw q (clear_reconnecting-IsCluster i _ (reset_reconnect_failures_of-IsCluster i _ w'))
          | inr q ↦ rw q (record_reconnect_failure-IsCluster i now _ w')
        ]
