-- ===== src/Rpc/Ring/Lookup.antt =====
-- internal/rpc/client.go: the node that GetNodeByRoomID finds.
use native.Mathlib.Nat.{le_refl}
use pokemon_simulator_server.Base.{
  ℕ, zero, suc, ◌≤◌, ◌<◌, ◌≡◌, refl, sym, ap, ◌∙◌, subst, ◌≢◌, ◌⊎◌, inl, inr, String, Bool, true,
  false, Option, none, some, List, [], ◌∷◌, ℤ, arith, integer_eq, int_eq_iff, natural_eq, nat_order,
  leb, nat_eq, ltb→lt, leb→le, le→leb, leb→lt, ltb, IsSorted, length, All, All-lookup, lookup,
  lookup-erase, Bool-cases, none_ne_some, if◌then◌else◌,
}
use pokemon_simulator_server.Rpc.Ring.Search.{get_or, search, search-IsFirst, IsFirst}
use pokemon_simulator_server.Rpc.Ring.Laws.{IsRing, Stands, remove_node-IsRing}
use pokemon_simulator_server.Rpc.Ring.{
  CppNode, NodeManager, no_nodes, found, rebuild_ring, removed, remove_node, ring_index, node_at,
  get_node_by_room_id,
}

module _ {ℓ} (P : ℕ → Type ℓ) where
  All-get_or : (l : List ℕ) (i : ℕ) → i < length l → All P l → P (get_or l i 0)
  All-get_or [] i lt h = absurd (omega arith)
  All-get_or (x ∷ l) zero lt h = h.0
  All-get_or (x ∷ l) (suc i) lt h = All-get_or l i (omega arith) h.1

  All-of_get_or : (l : List ℕ) → ((i : ℕ) → i < length l → P (get_or l i 0)) → All P l
  All-of_get_or [] h = tt
  All-of_get_or (x ∷ l) h = (h 0 (omega arith), All-of_get_or l (λ i lt. h (suc i) (omega arith)))

get_or_mono :
    (l : List ℕ) (i j : ℕ)
    → IsSorted nat_order l
    → i ≤ j
    → j < length l
    → get_or l i 0 ≤ get_or l j 0
unfolding nat_order
get_or_mono [] i j s le lt = absurd (omega arith)
get_or_mono (x ∷ l) zero zero s le lt = le_refl x
get_or_mono (x ∷ l) zero (suc j) s le lt =
    leb→le x _ (All-get_or (λ y. leb x y ≡ true) l j (omega arith) s.0)
get_or_mono (x ∷ l) (suc i) zero s le lt = absurd (omega arith)
get_or_mono (x ∷ l) (suc i) (suc j) s le lt = get_or_mono l i j s.1 (omega arith) (omega arith)

-- `p` is the next point clockwise from `h`: the least point that is not below it, or, past the last
-- one, the least point of all.
abbrev pub IsSuccessor : List ℕ → ℕ → ℕ → Type 0
IsSuccessor ring h p =
    ((h ≤ p) × All (λ q. (q < h) ⊎ (p ≤ q)) ring) ⊎ All (λ q. (q < h) × (p ≤ q)) ring

module _ (ring : List ℕ) (s : IsSorted nat_order ring) (h : ℕ) where
  passes : ℕ → Bool
  passes i = leb h (get_or ring i 0)

  first : IsFirst passes (length ring) (search passes (length ring))
  unfolding passes
  first =
      search-IsFirst passes (length ring)
        λ i j le lt t. le→leb h _ (omega (arith, leb→le h _ t, get_or_mono ring i j s le lt))

  -- GetNodeByRoomID looks at the point that follows the room's hash.
  pub ring_index-IsSuccessor :
      0 < length ring → IsSuccessor ring h (get_or ring (ring_index ring h) 0)
  unfolding ring_index passes
  ring_index-IsSuccessor size = elim (Bool-cases (nat_eq r (length ring))) [
    | inl end ↦ rw end (
        inr (
          All-of_get_or _ ring λ i lt.
            (leb→lt h _ (first.below i (ground arith)), get_or_mono ring 0 i s (omega arith) lt)))
    | inr inside ↦
        let lt : r < length ring = ground (arith, first.bounded) in
        rw inside
          (inl (leb→le h _ (first.above r (le_refl r) lt), All-of_get_or _ ring (λ i j. side i j)))
  ]
    where
      r : ℕ
      r = search passes (length ring)

      side : (i : ℕ) → i < length ring → (get_or ring i 0 < h) ⊎ (get_or ring r 0 ≤ get_or ring i 0)
      side i lt = elim (Bool-cases (ltb i r)) [
        | inl before ↦ inl (leb→lt h _ (first.below i (ltb→lt i r before)))
        | inr after ↦ inr (get_or_mono ring r i s (ground arith) lt)
      ]

  ring_index_lt : 0 < length ring → ring_index ring h < length ring
  unfolding ring_index passes
  ring_index_lt size = inside (search passes (length ring)) first.bounded
    where
      inside : (r : ℕ) → r ≤ length ring → (if nat_eq r (length ring) then 0 else r) < length ring
      inside r b = ground arith

nonzero : (k : ℕ) → 0 < k → nat_eq k 0 ≡ false
nonzero k h = ground arith

node_at-some :
    (m : NodeManager) (h : ℕ) {id : ℤ}
    → lookup h m.ring_map ≡ some id
    → node_at m h ≡ lookup id m.nodes
unfolding node_at
node_at-some m h q = rw (q, node_at)

nodes-removed :
    (crc32 : String → ℕ) (m : NodeManager) (id : ℤ) (o : Option CppNode)
    → lookup id m.nodes ≡ o
    → lookup id (removed crc32 m id o).nodes ≡ none
unfolding removed rebuild_ring
nodes-removed crc32 m id none q = q
nodes-removed crc32 m id (some n) q = lookup-erase id id m.nodes ∙ rw ((int_eq_iff id id).1 refl)

nodes-remove_node :
    (crc32 : String → ℕ) (m : NodeManager) (id : ℤ)
    → lookup id (remove_node crc32 m id).nodes ≡ none
unfolding remove_node
nodes-remove_node crc32 m id = nodes-removed crc32 m id (lookup id m.nodes) refl

at_point :
    (crc32 : String → ℕ) (m : NodeManager) (room_id : String)
    → IsRing m
    → 0 < length m.ring
    → (n : CppNode) × (get_node_by_room_id crc32 m room_id ≡ found (some n))
      × (lookup n.id m.nodes ≡ some n)
unfolding get_node_by_room_id
at_point crc32 m room_id w size =
    let (id, q, (n, r)) =
      All-get_or (Stands m.nodes m.ring_map) m.ring (ring_index m.ring (crc32 room_id))
        (ring_index_lt m.ring w.sorted (crc32 room_id) size) w.points in
    (
      n,
      rw (nonzero (length m.ring) size) (ap found (node_at-some m _ q ∙ r)),
      rw (All-lookup _ id m.nodes w.named r) r,
    )

no_points :
    (crc32 : String → ℕ) (m : NodeManager) (room_id : String)
    → nat_eq (length m.ring) 0 ≡ true
    → get_node_by_room_id crc32 m room_id ≡ no_nodes
unfolding get_node_by_room_id
no_points crc32 m room_id h = rw h

-- In a ring that is whole and has nodes, every room finds a registered node.
pub get_node_by_room_id_registered :
    (crc32 : String → ℕ) (m : NodeManager) (room_id : String)
    → IsRing m
    → 0 < length m.nodes
    → (n : CppNode) × (get_node_by_room_id crc32 m room_id ≡ found (some n))
      × (lookup n.id m.nodes ≡ some n)
unfolding get_node_by_room_id
get_node_by_room_id_registered crc32 m room_id w h =
    at_point crc32 m room_id w (omega (arith, w.size))

same_found : {n k : CppNode} → found (some n) ≡ found (some k) → n ≡ k
same_found h = cc

not_found : {n : CppNode} → no_nodes ≡ found (some n) → ⊥
not_found h = cc

pub found_lookup :
    (crc32 : String → ℕ) (m : NodeManager) (room_id : String) {n : CppNode} {id : ℤ}
    → IsRing m
    → get_node_by_room_id crc32 m room_id ≡ found (some n)
    → n.id ≡ id
    → lookup id m.nodes ≡ some n
found_lookup crc32 m room_id {n} {id} w f e = elim (Bool-cases (nat_eq (length m.ring) 0)) [
  | inl q ↦ absurd (not_found (sym (no_points crc32 m room_id q) ∙ f))
  | inr q ↦
      let (k, g, r) = at_point crc32 m room_id w (ground arith) in
      let same : k ≡ n = same_found (sym g ∙ f) in
      subst (λ (x : CppNode). lookup id m.nodes ≡ some x) same
        (subst (λ i. lookup i m.nodes ≡ some k) (ap (λ (x : CppNode). x.id) same ∙ e) r)
]

-- After a node is removed, no room finds it.
pub get_node_by_room_id-remove_node :
    (crc32 : String → ℕ) (m : NodeManager) (id : ℤ) (room_id : String) {n : CppNode}
    → IsRing m
    → get_node_by_room_id crc32 (remove_node crc32 m id) room_id ≡ found (some n)
    → n.id ≢ id
get_node_by_room_id-remove_node crc32 m id room_id {n} w f e = none_ne_some (
    sym (nodes-remove_node crc32 m id)
    ∙ found_lookup crc32 _ room_id (remove_node-IsRing crc32 m id w) f e)
