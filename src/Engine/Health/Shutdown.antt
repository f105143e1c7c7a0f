-- ===== src/Engine/Health/Shutdown.antt =====
-- internal/engine/manager.go and internal/rpc/client.go: what Shutdown leaves, and what a node that
-- rpc.Mgr finds for a room is to the instance.
use pokemon_simulator_server.Base.{
  ℕ, ◌≡◌, ◌⊎◌, refl, sym, ◌∙◌, ap, subst, String, true, false, Option, none, some, List, [], ◌∷◌, ℤ,
  int_eq, int_eq_iff, integer_eq, keys, lookup, lookup-insert, All, All-imp, All-lookup, All-Memᴰ,
  Memᴰ-keys, All-keys-lookup, Bool-cases, Option-cases, inl, inr, none_ne_some, eq_of_some,
}
use pokemon_simulator_server.Engine.Node.{EngineNode, is_connected, close_conn}
use pokemon_simulator_server.Engine.Instance.{get_node}
use pokemon_simulator_server.Engine.Upkeep.{Cluster, drop_connection}
use pokemon_simulator_server.Engine.Health.{close_round, close_all, shutdown}
use pokemon_simulator_server.Engine.Health.Coherent.{entry_of, entry_at, lookup-remove_node}
use pokemon_simulator_server.Engine.Health.Keeps.{IsCluster, connected-conn}
use pokemon_simulator_server.Rpc.Ring.{CppNode, found, get_node_by_room_id}
use pokemon_simulator_server.Rpc.Ring.Lookup.{found_lookup}

entry_of-some :
    (i : ℤ) (o : Option EngineNode) {k : CppNode}
    → entry_of i o ≡ some k
    → (n : EngineNode) × ((o ≡ some n) × ((n.client ≡ some k.client) × (n.addr ≡ k.addr)))
unfolding entry_of entry_at
entry_of-some i none h = absurd (none_ne_some h)
entry_of-some i (some n) {k} h = elim (Option-cases n.client) [
  | inl q ↦ absurd (none_ne_some (rw (q, entry_at) at h))
  | inr (client, q) ↦
      let same = eq_of_some (rw (q, entry_at) at h) in
      (n, (refl, (q ∙ ap (λ (c : CppNode). some c.client) same, ap (λ (c : CppNode). c.addr) same)))
]

-- Whatever node rpc.Mgr's GetNodeByRoomID finds for a room is a connected node of the instance, under its
-- index, with its client and its address.
pub get_node_by_room_id-IsCluster :
    (crc32 : String → ℕ) (c : Cluster) (room_id : String) {k : CppNode}
    → IsCluster c
    → get_node_by_room_id crc32 c.mgr room_id ≡ found (some k)
    → (n : EngineNode) × (get_node c.instance_of k.id ≡ some n)
      × (is_connected n ≡ true)
      × (n.client ≡ some k.client)
      × (n.addr ≡ k.addr)
unfolding get_node
get_node_by_room_id-IsCluster crc32 c room_id {k} w h =
    let entry : entry_of k.id (lookup k.id c.instance_of.nodes) ≡ some k =
      sym (w.agrees k.id) ∙ found_lookup crc32 c.mgr room_id w.ring h refl in
    let (n, (q, (client, addr))) = entry_of-some k.id (lookup k.id c.instance_of.nodes) entry in
    (n, q, All-lookup _ k.id c.instance_of.nodes w.connected q, client, addr)

-- A node that rpc.Mgr does not hold, or that the instance has with a connection.
abbrev Closable : Cluster → ℤ → Type 0
Closable c i =
    (lookup i c.mgr.nodes ≡ none)
    ⊎ ((n : EngineNode) × ((get_node c.instance_of i ≡ some n)
          × ((conn : ℕ) × (n.conn ≡ some conn))))

module _ (crc32 : String → ℕ) where
  gone-round :
      (i j : ℤ) (o : Option EngineNode) (c : Cluster)
      → lookup j c.mgr.nodes ≡ none
      → lookup j (close_round crc32 i o c).mgr.nodes ≡ none
  unfolding close_round drop_connection close_conn
  gone-round i j none c h = h
  gone-round i j (some n) c h = elim (Option-cases n.conn) [
    | inl q ↦ rw (q, drop_connection) h
    | inr (conn, q) ↦ elim (Bool-cases (int_eq i j)) [
      | inl hit ↦ rw (q, drop_connection) (lookup-remove_node crc32 c.mgr i j ∙ rw hit refl)
      | inr miss ↦ rw (q, drop_connection) (lookup-remove_node crc32 c.mgr i j ∙ rw miss h)
    ]
  ]

  gone-all :
      (is : List ℤ) (j : ℤ) (c : Cluster)
      → lookup j c.mgr.nodes ≡ none
      → lookup j (close_all crc32 is c).mgr.nodes ≡ none
  unfolding close_all
  gone-all [] j c h = h
  gone-all (i ∷ is) j c h = gone-all is j _ (gone-round i j _ c h)

  closed-round :
      (i : ℤ) (c : Cluster)
      → Closable c i
      → lookup i (close_round crc32 i (get_node c.instance_of i) c).mgr.nodes ≡ none
  unfolding close_round drop_connection close_conn
  closed-round i c (inl h) = gone-round i i _ c h
  closed-round i c (inr (n, (q, (conn, r)))) =
      rw (q, r, close_round, drop_connection)
        (lookup-remove_node crc32 c.mgr i i ∙ rw ((int_eq_iff i i).1 refl) refl)

  node-round :
      (i j : ℤ) (o : Option EngineNode) (c : Cluster)
      → int_eq i j ≡ false
      → get_node (close_round crc32 i o c).instance_of j ≡ get_node c.instance_of j
  unfolding close_round drop_connection close_conn get_node
  node-round i j none c miss = refl
  node-round i j (some n) c miss = elim (Option-cases n.conn) [
    | inl q ↦ rw (q, drop_connection) (lookup-insert i j _ c.instance_of.nodes ∙ rw miss refl)
    | inr (conn, q) ↦
        rw (q, drop_connection) (lookup-insert i j _ c.instance_of.nodes ∙ rw miss refl)
  ]

  Closable-round :
      (i j : ℤ) (c : Cluster)
      → Closable c i
      → Closable c j
      → Closable (close_round crc32 i (get_node c.instance_of i) c) j
  Closable-round i j c at_i (inl h) = inl (gone-round i j _ c h)
  Closable-round i j c at_i (inr (n, (q, r))) = elim (Bool-cases (int_eq i j)) [
    | inl hit ↦ inl (
        subst (λ k. lookup k (close_round crc32 i (get_node c.instance_of i) c).mgr.nodes ≡ none)
          ((int_eq_iff i j).0 hit) (closed-round i c at_i))
    | inr miss ↦ inr (n, (node-round i j _ c miss ∙ q, r))
  ]

  closed-All :
      (is : List ℤ) (c : Cluster)
      → All (Closable c) is
      → All (λ j. lookup j (close_all crc32 is c).mgr.nodes ≡ none) is
  unfolding close_all
  closed-All [] c h = tt
  closed-All (i ∷ is) c (at_i, h) = (
    gone-all is i _ (closed-round i c at_i),
    closed-All is _ (All-imp is (λ j. Closable-round i j c at_i) h),
  )

  keys-Closable : (c : Cluster) → IsCluster c → All (Closable c) (keys c.instance_of.nodes)
  unfolding get_node
  keys-Closable c w =
      All-imp (keys c.instance_of.nodes)
        (λ i (n, q).
          inr (n, (q, connected-conn n (All-lookup _ i c.instance_of.nodes w.connected q))))
        (All-keys-lookup c.instance_of.nodes)

  -- Shutdown leaves no node in the instance and none in rpc.Mgr.
  pub shutdown_lem :
      (c : Cluster) (i : ℤ)
      → IsCluster c
      → ((shutdown crc32 c).instance_of.nodes ≡ []) × (lookup i (shutdown crc32 c).mgr.nodes ≡ none)
  unfolding shutdown entry_of
  shutdown_lem c i w = elim (Option-cases (lookup i c.instance_of.nodes)) [
    | inl q ↦ (refl, gone-all (keys c.instance_of.nodes) i c (w.agrees i ∙ ap (entry_of i) q))
    | inr (n, q) ↦ (
      refl,
      All-Memᴰ _ (keys c.instance_of.nodes)
          (closed-All (keys c.instance_of.nodes) c (keys-Closable c w))
          (Memᴰ-keys c.instance_of.nodes i q),
    )
  ]
