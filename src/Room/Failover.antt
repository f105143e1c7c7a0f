-- ===== src/Room/Failover.antt =====
-- internal/room/manager.go: pickHealthyNodeForRoom, the choice of a node to move a room to.
use pokemon_simulator_server.Base.{
  ℕ, ◌≡◌, refl, sym, ◌∙◌, ap, String, true, false, ◌&&◌, Option, none, some, List, [], ◌∷◌, ℤ, pos,
  int_eq, integer_eq, All, All-append, All-lookup, keys, not, Bool-cases, Option-cases, inl, inr,
  none_ne_some, eq_of_some, if◌then◌else◌, subst,
}
use pokemon_simulator_server.Engine.Node.{EngineNode, EngineNodeStatus, snapshot}
use pokemon_simulator_server.Engine.Instance.{
  EngineInstance, get_node, get_node_by_pod_index, choose, count_node, count_nodes, get_status,
}
use pokemon_simulator_server.Engine.Pick.{choose-All}

-- The loop over status.Nodes, which leaves out the nodes that are not healthy and the excluded one.
unfoldable pub healthy_indices : ℤ → List EngineNodeStatus → List ℤ
healthy_indices excluded [] = []
healthy_indices excluded (s ∷ ss) =
    let rest = healthy_indices excluded ss in
    if not s.healthy then rest else if int_eq s.pod_index excluded then rest else s.pod_index ∷ rest

module _ (crc32 : String → ℕ) where
  unfoldable pub pick_index : EngineInstance → Option ℤ → Option EngineNode
  pick_index e none = none
  pick_index e (some i) = get_node_by_pod_index e i

  -- pickHealthyNodeForRoom: `none` is any of its errors.
  unfoldable pub pick_healthy_node_for_room : Option EngineInstance → String → ℤ → Option EngineNode
  pick_healthy_node_for_room none room_id excluded = none
  pick_healthy_node_for_room (some e) room_id excluded =
      pick_index e (choose crc32 room_id (healthy_indices excluded (get_status e).nodes))

module _ (e : EngineInstance) where
  -- A status that some registered node has.
  abbrev IsStatus : EngineNodeStatus → Type 0
  IsStatus s = (i : ℤ) × ((n : EngineNode) × ((get_node e i ≡ some n) × (s ≡ snapshot n)))

  count_node-IsStatus :
      (i : ℤ) (acc : List EngineNodeStatus × ℕ)
      → All IsStatus acc.0
      → All IsStatus (count_node (get_node e i) acc).0
  unfolding count_node
  count_node-IsStatus i (statuses, healthy) h = elim (Option-cases (get_node e i)) [
    | inl q ↦ rw (q, count_node) h
    | inr (n, q) ↦
        elim (Bool-cases (not (snapshot n).healthy && int_eq (snapshot n).active_rooms (pos 0))) [
          | inl left_out ↦ rw (q, count_node, left_out) h
          | inr kept ↦
              rw (q, count_node, kept) (All-append _ statuses _ h ((i, (n, (q, refl))), tt))
        ]
  ]

  count_nodes-IsStatus :
      (is : List ℤ) (acc : List EngineNodeStatus × ℕ)
      → All IsStatus acc.0
      → All IsStatus (count_nodes e is acc).0
  unfolding count_nodes
  count_nodes-IsStatus [] acc h = h
  count_nodes-IsStatus (i ∷ is) acc h = count_nodes-IsStatus is _ (count_node-IsStatus i acc h)

  -- A healthy node other than the excluded one is registered under this index.
  abbrev Takes : ℤ → ℤ → Type 0
  Takes excluded i =
      ((n : EngineNode) × ((get_node e i ≡ some n) × (n.healthy ≡ true)))
      × (int_eq i excluded ≡ false)

  status-index :
      (named : All (λ (p : ℤ × EngineNode). p.1.pod_index ≡ p.0) e.nodes) (s : EngineNodeStatus)
      → IsStatus s
      → s.healthy ≡ true
      → (n : EngineNode) × ((get_node e s.pod_index ≡ some n) × (n.healthy ≡ true))
  unfolding snapshot get_node
  status-index named s (i, (n, (q, same))) h =
      let index : s.pod_index ≡ i =
        ap (λ (t : EngineNodeStatus). t.pod_index) same ∙ All-lookup _ i e.nodes named q in
      (n, (rw index q, sym (ap (λ (t : EngineNodeStatus). t.healthy) same) ∙ h))

  healthy_indices-Takes :
      (named : All (λ (p : ℤ × EngineNode). p.1.pod_index ≡ p.0) e.nodes) (excluded : ℤ)
      (ss : List EngineNodeStatus)
      → All IsStatus ss
      → All (Takes excluded) (healthy_indices excluded ss)
  unfolding healthy_indices
  healthy_indices-Takes named excluded [] h = tt
  healthy_indices-Takes named excluded (s ∷ ss) h =
      let rest = healthy_indices-Takes named excluded ss h.1 in
      elim (Bool-cases s.healthy) [
        | inr bad ↦ rw bad rest
        | inl good ↦ elim (Bool-cases (int_eq s.pod_index excluded)) [
          | inl out ↦ rw (good, out) rest
          | inr other ↦ rw (good, other) ((status-index named s h.0 good, other), rest)
        ]
      ]

-- A room is only ever moved to a node that is registered under another index than the excluded one and
-- is healthy, if each node is registered under its own index.
pub pick_healthy_node_for_room-some :
    (crc32 : String → ℕ) (e : EngineInstance) (room_id : String) (excluded : ℤ) {n : EngineNode}
    → All (λ (p : ℤ × EngineNode). p.1.pod_index ≡ p.0) e.nodes
    → pick_healthy_node_for_room crc32 (some e) room_id excluded ≡ some n
    → (i : ℤ) × (get_node e i ≡ some n) × (n.healthy ≡ true) × (int_eq i excluded ≡ false)
unfolding pick_healthy_node_for_room pick_index get_node_by_pod_index get_status
pick_healthy_node_for_room-some crc32 e room_id excluded {n} named h =
    let indices = healthy_indices excluded (count_nodes e (keys e.nodes) ([], 0)).0 in
    elim (Option-cases (choose crc32 room_id indices)) [
      | inl q ↦ absurd (none_ne_some (rw (q, pick_index) at h))
      | inr (i, q) ↦
          let found : get_node e i ≡ some n = rw (q, pick_index) at h in
          let ((m, (r, good)), other) =
            choose-All crc32 (Takes e excluded) room_id indices
              (healthy_indices-Takes e named excluded _
                (count_nodes-IsStatus e (keys e.nodes) ([], 0) tt))
              q in
          (
            i,
            found,
            subst (λ (k : EngineNode). k.healthy ≡ true) (eq_of_some (sym r ∙ found)) good,
            other,
          )
    ]
