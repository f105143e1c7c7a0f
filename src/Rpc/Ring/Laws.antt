-- ===== src/Rpc/Ring/Laws.antt =====
-- internal/rpc/client.go: what the ring keeps under registration and removal, and what a lookup
-- of a room finds.
use pokemon_simulator_server.Base.{
  ℕ, zero, suc, ◌+◌, ◌*◌, ◌≡◌, refl, sym, ◌∙◌, inl, inr, String, Option, none, some, List, [], ◌∷◌,
  ◌++◌, ℤ, arith, integer_eq, natural_eq, nat_order, nat_eq, nat_eq_iff, sort-IsSorted, IsSorted,
  length, length-append, length-sort, All, All-imp, All-append, All-sort, All-insert, All-erase,
  All-keys-lookup, Map, keys, lookup, insert, lookup-insert, length-map, Bool-cases,
}
use pokemon_simulator_server.Rpc.Ring.{
  CppNode, NodeManager, Points, virtual_nodes, virtual_key, add_points, add_nodes, rebuild_ring,
  register_node, removed, remove_node,
}

-- A point of the ring stands for a registered node.
abbrev pub Stands : Map ℤ CppNode → Map ℕ ℤ → ℕ → Type 0
Stands nodes ring_map h =
    (id : ℤ) × (lookup h ring_map ≡ some id) × ((n : CppNode) × (lookup id nodes ≡ some n))

-- The ring is sorted, each of its points stands for a registered node, there are a hundred to a
-- node, and each node is registered under its own id.
pub record IsRing (m : NodeManager) : Type 0 where
  pub sorted : IsSorted nat_order m.ring
  pub points : All (Stands m.nodes m.ring_map) m.ring
  pub size : length m.ring ≡ 100 * length m.nodes
  pub named : All (λ (p : ℤ × CppNode). p.1.id ≡ p.0) m.nodes

Stands-insert :
    (nodes : Map ℤ CppNode) (ring_map : Map ℕ ℤ) (k : ℕ) (id : ℤ)
    → ((n : CppNode) × (lookup id nodes ≡ some n))
    → (h : ℕ) → Stands nodes ring_map h
    → Stands nodes (insert k id ring_map) h
Stands-insert nodes ring_map k id r h (id', q, r') = elim (Bool-cases (nat_eq k h)) [
  | inl hit ↦ (id, lookup-insert k h id ring_map ∙ rw hit, r)
  | inr miss ↦ (id', lookup-insert k h id ring_map ∙ rw miss q, r')
]

Stands-insert_self :
    (nodes : Map ℤ CppNode) (ring_map : Map ℕ ℤ) (k : ℕ) (id : ℤ)
    → ((n : CppNode) × (lookup id nodes ≡ some n))
    → Stands nodes (insert k id ring_map) k
Stands-insert_self nodes ring_map k id r =
    (id, lookup-insert k k id ring_map ∙ rw ((nat_eq_iff k k).1 refl), r)

module _ (crc32 : String → ℕ) (nodes : Map ℤ CppNode) where
  add_points-Stands :
      (left i : ℕ) (id : ℤ) (p : Points)
      → ((n : CppNode) × (lookup id nodes ≡ some n))
      → All (Stands nodes p.ring_map) p.ring
      → All
          (Stands nodes (add_points crc32 left i id p).ring_map)
          (add_points crc32 left i id p).ring
  unfolding add_points
  add_points-Stands zero i id p r h = h
  add_points-Stands (suc left) i id p r h = add_points-Stands left (i + 1) id _ r (
      All-append _ p.ring _
        (All-imp p.ring (Stands-insert nodes p.ring_map (virtual_key crc32 id i) id r) h)
        (Stands-insert_self nodes p.ring_map (virtual_key crc32 id i) id r, tt))

  add_nodes-Stands :
      (ids : List ℤ) (p : Points)
      → All (λ id. (n : CppNode) × (lookup id nodes ≡ some n)) ids
      → All (Stands nodes p.ring_map) p.ring
      → All (Stands nodes (add_nodes crc32 ids p).ring_map) (add_nodes crc32 ids p).ring
  unfolding add_nodes
  add_nodes-Stands [] p r h = h
  add_nodes-Stands (id ∷ ids) p r h =
      add_nodes-Stands ids (add_points crc32 virtual_nodes 0 id p) r.1
        (add_points-Stands virtual_nodes 0 id p r.0 h)

length-add_points :
    (crc32 : String → ℕ) (left i : ℕ) (id : ℤ) (p : Points)
    → length (add_points crc32 left i id p).ring ≡ length p.ring + left
unfolding add_points
length-add_points crc32 zero i id p = omega arith
length-add_points crc32 (suc left) i id p = omega (
  arith,
  length-add_points crc32 left (i + 1) id (record {
    ring = p.ring ++ (virtual_key crc32 id i ∷ []);
    ring_map = insert (virtual_key crc32 id i) id p.ring_map;
  }),
  length-append p.ring (virtual_key crc32 id i ∷ []),
)

length-add_nodes :
    (crc32 : String → ℕ) (ids : List ℤ) (p : Points)
    → length (add_nodes crc32 ids p).ring ≡ length p.ring + 100 * length ids
unfolding add_nodes
length-add_nodes crc32 [] p = omega arith
length-add_nodes crc32 (id ∷ ids) p = omega (
  arith,
  length-add_nodes crc32 ids (add_points crc32 virtual_nodes 0 id p),
  length-add_points crc32 virtual_nodes 0 id p,
)

rebuild_ring-IsRing :
    (crc32 : String → ℕ) (nodes : Map ℤ CppNode)
    → All (λ (p : ℤ × CppNode). p.1.id ≡ p.0) nodes
    → IsRing (rebuild_ring crc32 nodes)
unfolding rebuild_ring
rebuild_ring-IsRing crc32 nodes named = record {
  sorted = sort-IsSorted nat_order points;
  points =
      All-sort nat_order _ points
        (add_nodes-Stands crc32 nodes (keys nodes) _ (All-keys-lookup nodes) tt);
  size =
      length-sort nat_order points
      ∙ length-add_nodes crc32 (keys nodes) (record { ring = []; ring_map = [] })
      ∙ omega (arith, length-map (λ (p : ℤ × CppNode). p.0) nodes);
  named = named;
}
  where
    points : List ℕ
    points = (add_nodes crc32 (keys nodes) (record { ring = []; ring_map = [] })).ring

-- Registering a node, new or known, keeps the ring whole: sorted, with a hundred points to each node,
-- each point standing for a registered node, and each node registered under its own id.
pub register_node-IsRing :
    (crc32 : String → ℕ) (m : NodeManager) (id : ℤ) (addr : String) (client : ℕ)
    → IsRing m
    → IsRing (register_node crc32 m id addr client)
unfolding register_node
register_node-IsRing crc32 m id addr client w =
    rebuild_ring-IsRing crc32 _ (All-insert _ id _ m.nodes (λ j e. sym e) w.named)

removed-IsRing :
    (crc32 : String → ℕ) (m : NodeManager) (id : ℤ) (o : Option CppNode)
    → IsRing m
    → IsRing (removed crc32 m id o)
unfolding removed
removed-IsRing crc32 m id none w = w
removed-IsRing crc32 m id (some n) w = rebuild_ring-IsRing crc32 _ (All-erase _ id m.nodes w.named)

-- Removing a node, registered or not, keeps the ring whole in the same sense.
pub remove_node-IsRing :
    (crc32 : String → ℕ) (m : NodeManager) (id : ℤ) → IsRing m → IsRing (remove_node crc32 m id)
unfolding remove_node
remove_node-IsRing crc32 m id w = removed-IsRing crc32 m id (lookup id m.nodes) w
