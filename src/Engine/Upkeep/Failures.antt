-- ===== src/Engine/Upkeep/Failures.antt =====
-- internal/engine/manager.go: what recordReconnectFailure and checkSingleNode do to a node.
use pokemon_simulator_server.Base.{
  ℕ, ◌+◌, ◌≤◌, ◌≡◌, refl, ◌∙◌, ap, Bool, true, false, Option, none, some, [], ◌∷◌, ◌++◌, ℤ, String,
  arith, integer_eq, int_eq_iff, lookup, lookup-insert_self, lookup-erase, ltb, leb, le→leb, lt→ltb,
  Bool-cases, Option-cases, inl, inr, if◌then◌else◌,
}
use pokemon_simulator_server.Engine.Node.{
  EngineNode, mark_healthy, mark_unhealthy, close_conn, increment_reconnect_failures,
}
use pokemon_simulator_server.Engine.Instance.{EngineInstance, get_node}
use pokemon_simulator_server.Engine.Upkeep.{
  Cluster, Heartbeat, beat, heartbeat_error, CheckResult, checked, check_error, put_node,
  trigger_reassign_rooms, drop_connection, delete_node, after_failure, record_reconnect_failure,
  take_heartbeat, check_node, check_single_node,
}

module _ (crc32 : String → ℕ) where
  -- The first failure of a node to reconnect is counted and has no other effect.
  pub record_reconnect_failure_first :
      (i : ℤ) (now : ℕ) (c : Cluster) (n : EngineNode)
      → get_node c.instance_of i ≡ some n
      → n.reconnect_failures ≡ 0
      → record_reconnect_failure crc32 i now c
        ≡ put_node c i (record n { reconnect_failures = 1; last_reconnect_failure = now })
  unfolding record_reconnect_failure after_failure increment_reconnect_failures
  record_reconnect_failure_first i now c n q zero = rw (q, record_reconnect_failure, zero) refl

  drop_connection-same :
      (i : ℤ) (conn : Option ℕ) (c : Cluster)
      → ((drop_connection crc32 i conn c).instance_of ≡ c.instance_of)
        × ((drop_connection crc32 i conn c).reassigned ≡ c.reassigned)
  unfolding drop_connection
  drop_connection-same i none c = (refl, refl)
  drop_connection-same i (some conn) c = (refl, refl)

  delete_node-removes :
      (i : ℤ) (c : Cluster)
      → (get_node (delete_node crc32 i c).instance_of i ≡ none)
        × ((delete_node crc32 i c).reassigned ≡ c.reassigned)
  unfolding delete_node get_node
  delete_node-removes i c = elim (Option-cases (lookup i c.instance_of.nodes)) [
    | inl q ↦ rw (q, delete_node) (q, refl)
    | inr (n, q) ↦
        let (same, called) = drop_connection-same i (close_conn n).1 _ in
        rw (q, delete_node)
          (
            ap (λ (e : EngineInstance). lookup i e.nodes) same
                ∙ lookup-erase i i c.instance_of.nodes
                ∙ rw ((int_eq_iff i i).1 refl) refl,
            called,
          )
  ]

  triggered :
      (c : Cluster)
      → (trigger_reassign_rooms c).reassigned
        ≡ (if c.reassign_func then c.reassigned ++ (c.instance_of ∷ []) else c.reassigned)
  unfolding trigger_reassign_rooms
  triggered c = elim (Bool-cases c.reassign_func) [ inl q ↦ rw q refl | inr q ↦ rw q refl ]

  -- Every later failure of a node to reconnect removes the node; before that, the callback that moves
  -- rooms is called once, if there is one, on an instance that still has the node.
  pub record_reconnect_failure_later :
      (i : ℤ) (now : ℕ) (c : Cluster) (n : EngineNode)
      → get_node c.instance_of i ≡ some n
      → 1 ≤ n.reconnect_failures
      → let d = record_reconnect_failure crc32 i now c in
        let e = (put_node c i (increment_reconnect_failures n now)).instance_of in
        (get_node d.instance_of i ≡ none)
        × (d.reassigned ≡ (if c.reassign_func then c.reassigned ++ (e ∷ []) else c.reassigned))
        × (get_node e i ≡ some (increment_reconnect_failures n now))
  unfolding record_reconnect_failure after_failure increment_reconnect_failures get_node
  record_reconnect_failure_later i now c n q again =
      let n' : EngineNode = increment_reconnect_failures n now in
      let more : ltb 1 (n.reconnect_failures + 1) ≡ true = lt→ltb _ _ (omega arith) in
      let enough : leb 2 (n.reconnect_failures + 1) ≡ true = le→leb _ _ (omega arith) in
      let (gone, called) = delete_node-removes i (trigger_reassign_rooms (put_node c i n')) in
      rw (q, record_reconnect_failure, more, enough)
        (gone, called ∙ triggered (put_node c i n'), lookup-insert_self i n' c.instance_of.nodes)

-- Whether a check got an answer.
abbrev pub is_checked : CheckResult → Bool
is_checked checked = true
is_checked (check_error err) = false

-- The node that a check has left under the index.
abbrev pub Checks : ℤ → Cluster × CheckResult → Type 0
Checks i s = (n : EngineNode) × (get_node s.0.instance_of i ≡ some n) × (n.healthy ≡ is_checked s.1)

trigger-instance : (c : Cluster) → (trigger_reassign_rooms c).instance_of ≡ c.instance_of
unfolding trigger_reassign_rooms
trigger-instance c = elim (Bool-cases c.reassign_func) [ inl q ↦ rw q refl | inr q ↦ rw q refl ]

if_trigger :
    (b : Bool) (c : Cluster)
    → (if b then trigger_reassign_rooms c else c).instance_of ≡ c.instance_of
if_trigger true c = trigger-instance c
if_trigger false c = refl

put_node-get :
    (i : ℤ) (n : EngineNode) (c : Cluster) → get_node (put_node c i n).instance_of i ≡ some n
unfolding get_node
put_node-get i n c = lookup-insert_self i n c.instance_of.nodes

take_heartbeat-Checks :
    (i : ℤ) (n : EngineNode) (h : Heartbeat) (now : ℕ) (c : Cluster)
    → Checks i (take_heartbeat i n h now c)
unfolding take_heartbeat mark_unhealthy mark_healthy
take_heartbeat-Checks i n (heartbeat_error err) now c =
    (mark_unhealthy n err, put_node-get i (mark_unhealthy n err) c, refl)
take_heartbeat-Checks i n (beat hb) now c =
    let m : EngineNode = (mark_healthy n hb now).0 in
    (
      m,
      ap (λ e. get_node e i) (if_trigger (mark_healthy n hb now).1 (put_node c i m))
          ∙ put_node-get i m c,
      refl,
    )

check_node-Checks :
    (i : ℤ) (n : EngineNode) (client : Option ℕ) (call : ℕ → Heartbeat) (now : ℕ) (c : Cluster)
    → Checks i (check_node i n client call now c)
unfolding check_node mark_unhealthy
check_node-Checks i n none call now c = (
  mark_unhealthy n "pod not connected",
  put_node-get i (mark_unhealthy n "pod not connected") c,
  refl,
)
check_node-Checks i n (some client) call now c = take_heartbeat-Checks i n (call client) now c

-- A check leaves a registered node registered, and healthy exactly if it reports no error.
pub check_single_node_lem :
    (i : ℤ) (call : ℕ → Heartbeat) (now : ℕ) (c : Cluster) (n : EngineNode)
    → get_node c.instance_of i ≡ some n
    → Checks i (check_single_node i call now c)
unfolding check_single_node
check_single_node_lem i call now c n q =
    rw (q, check_single_node) (check_node-Checks i n n.client call now c)
