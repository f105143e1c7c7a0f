-- ===== src/Engine/Pick.antt =====
-- internal/engine/manager.go: which node pickPreferredNodeForRoom and GetNodeForRoom settle on.
pub mod Collect
use pokemon_simulator_server.Base.{
  ℕ, zero, suc, ◌+◌, ◌<◌, ◌%◌, ◌≤◌, String, Bool, true, false, ◌&&◌, Option, none, some, List, [],
  ◌∷◌, ◌++◌, ◌≡◌, refl, ◌≢◌, subst, sym, ap, ◌∙◌, ◌⊎◌, inl, inr, arith, ℤ, pos, negsuc, int_le,
  int_lt, int_order, integer_eq, not, is_some, Bool-cases, Option-cases, lt→ltb, none_ne_some,
  eq_of_some, sort, length, length-sort, get_elem?, get_elem?-some, All, All-get_elem?, All-sort,
  All-filter_by, filter_by, filter_by-perm, filter_by-keys-nil, sort-perm, length-perm, Permᴰ, keys,
  lookup, if◌then◌else◌,
}
use mathlib.Core.Path.{fun_ext}
use mathlib.Core.List.{append-nil, append_assoc}
use native.Mathlib.Nat.{mod-lt}
use pokemon_simulator_server.Configs.{cpp_max_instance}
use pokemon_simulator_server.Engine.Node.{EngineNode, snapshot, lt_70}
use pokemon_simulator_server.Engine.Instance.{
  EngineInstance, get_node, get_node_by_pod_index, is_full, effective_max, Candidates, consider,
  collect, no_candidates, candidates, choose, pick_among, pick_preferred_node_for_room,
  get_node_for_room, fallback_node, hash_room, hash_mod, NodeResult, node, no_replicas,
  pod_not_found, snapshot_pod_indices,
}
use pokemon_simulator_server.Engine.Pick.Collect.{
  HasRoom, suits_node, light_node, HasRoom-suits_node, suits_node-HasRoom, HasRoom-light_node,
  light_node-lt_70, suits, light, chosen, chosen_lem, chosen-suits, chosen-light, chosen-ne-nil,
}

module _ (crc32 : String → ℕ) where
  choose-some :
      (room_id : String) (is : List ℤ)
      → 0 < length is
      → (i : ℤ) × (choose crc32 room_id is ≡ some i)
  unfolding choose
  choose-some room_id is h =
      get_elem?-some (sort int_order is) _
        (rw (length-sort int_order is) (mod-lt (crc32 room_id) h))

  pub choose-All {ℓ} :
      (P : ℤ → Type ℓ) (room_id : String) (is : List ℤ) {i : ℤ}
      → All P is
      → choose crc32 room_id is ≡ some i
      → P i
  unfolding choose
  choose-All P room_id is h q = All-get_elem? P _ _ (All-sort int_order P is h) q

  registered :
      (e : EngineInstance) (i : ℤ) → suits e i ≡ true → (n : EngineNode) × (get_node e i ≡ some n)
  unfolding suits suits_node
  registered e i h = elim (Option-cases (get_node e i)) [
    | inl q ↦ absurd (cc (h, ap suits_node q))
    | inr r ↦ r
  ]

  pick_among-some :
      (e : EngineInstance) (room_id : String) (is : List ℤ) {i : ℤ} {n : EngineNode}
      → choose crc32 room_id is ≡ some i
      → get_node e i ≡ some n
      → pick_among crc32 e room_id is ≡ some n
  unfolding pick_among
  pick_among-some e room_id is c g = rw (c, pick_among) g

  pick-chosen :
      (e : EngineInstance) (room_id : String)
      → pick_preferred_node_for_room crc32 e room_id ≡ pick_among crc32 e room_id (chosen e)
  unfolding pick_preferred_node_for_room
  pick-chosen e room_id = ap (pick_among crc32 e room_id) (chosen_lem e)

  picked_among :
      (e : EngineInstance) (room_id : String) (is : List ℤ) {n : EngineNode}
      → pick_among crc32 e room_id is ≡ some n
      → (i : ℤ) × (choose crc32 room_id is ≡ some i) × (get_node e i ≡ some n)
  unfolding pick_among
  picked_among e room_id is h = elim (Option-cases (choose crc32 room_id is)) [
    | inl c ↦ absurd (none_ne_some (rw (c, pick_among) at h))
    | inr (i, c) ↦ (i, c, rw (c, pick_among) at h)
  ]

  -- A picked node is the one registered under the index that was chosen among the candidates.
  picked :
      (e : EngineInstance) (room_id : String) {n : EngineNode}
      → pick_preferred_node_for_room crc32 e room_id ≡ some n
      → (i : ℤ) × (choose crc32 room_id (chosen e) ≡ some i) × (get_node e i ≡ some n)
  picked e room_id h = picked_among e room_id (chosen e) (sym (pick-chosen e room_id) ∙ h)

  -- The node picked for a room is registered, healthy, and holds fewer rooms than it may.
  pub pick_some :
      (e : EngineInstance) (room_id : String) {n : EngineNode}
      → pick_preferred_node_for_room crc32 e room_id ≡ some n
      → ((i : ℤ) × (get_node e i ≡ some n)) × HasRoom n
  unfolding suits
  pick_some e room_id h =
      let (i, c, g) = picked e room_id h in
      (
        (i, g),
        suits_node-HasRoom _
            (rw g at (choose-All (λ j. suits e j ≡ true) room_id (chosen e) (chosen-suits e) c)),
      )

  -- While a node with room to spare runs below 70% CPU, no busier node is picked.
  pub pick_prefers_light :
      (e : EngineInstance) (room_id : String) (j : ℤ) {n m : EngineNode}
      → get_node e j ≡ some m
      → HasRoom m
      → lt_70 m.cpu_usage ≡ true
      → pick_preferred_node_for_room crc32 e room_id ≡ some n
      → lt_70 n.cpu_usage ≡ true
  unfolding light
  pick_prefers_light e room_id j {n} {m} f r l h =
      let (i, c, g) = picked e room_id h in
      light_node-lt_70 n (
        rw g at (
          choose-All (λ k. light e k ≡ true) room_id (chosen e)
            (chosen-light e j f (rw f (HasRoom-light_node m r l))) c))

  -- A node is picked as soon as some registered node is healthy and not full.
  pub pick_total :
      (e : EngineInstance) (room_id : String) (j : ℤ) {m : EngineNode}
      → get_node e j ≡ some m
      → HasRoom m
      → (n : EngineNode) × (pick_preferred_node_for_room crc32 e room_id ≡ some n)
  unfolding suits
  pick_total e room_id j {m} f r =
      let nonempty = chosen-ne-nil e j f (rw f (HasRoom-suits_node m r)) in
      let (i, c) = choose-some room_id (chosen e) nonempty in
      let (n, g) =
        registered e i (choose-All (λ k. suits e k ≡ true) room_id (chosen e) (chosen-suits e) c) in
      (n, pick-chosen e room_id ∙ pick_among-some e room_id (chosen e) c g)

candidates-perm :
    (xs xs' ys ys' : List ℤ)
    → Permᴰ xs xs'
    → Permᴰ ys ys'
    → Permᴰ
        (candidates (record { under_load = xs; not_full = ys }))
        (candidates (record { under_load = xs'; not_full = ys' }))
unfolding candidates
candidates-perm [] [] ys ys' p q = q
candidates-perm [] (x ∷ xs') ys ys' p q = absurd (omega (arith, length-perm p))
candidates-perm (x ∷ xs) [] ys ys' p q = absurd (omega (arith, length-perm p))
candidates-perm (x ∷ xs) (x' ∷ xs') ys ys' p q = p

module _ (crc32 : String → ℕ) (d e : EngineInstance) (p : Permᴰ (keys d.nodes) (keys e.nodes))
    (same : (i : ℤ) → get_node d i ≡ get_node e i) where
  chosen-perm : Permᴰ (chosen d) (chosen e)
  unfolding chosen light suits
  chosen-perm =
      candidates-perm _ _ _ _
        (subst (λ f. Permᴰ (filter_by (light d) (keys d.nodes)) (filter_by f (keys e.nodes)))
          (fun_ext (λ i. ap light_node (same i))) (filter_by-perm (light d) p))
        (subst (λ f. Permᴰ (filter_by (suits d) (keys d.nodes)) (filter_by f (keys e.nodes)))
          (fun_ext (λ i. ap suits_node (same i))) (filter_by-perm (suits d) p))

  choose-same :
      (room_id : String) → choose crc32 room_id (chosen d) ≡ choose crc32 room_id (chosen e)
  unfolding choose
  choose-same room_id = rw (sort-perm int_order chosen-perm, length-perm chosen-perm)

  pick_among-same :
      (room_id : String)
      → pick_among crc32 d room_id (chosen d) ≡ pick_among crc32 e room_id (chosen e)
  unfolding pick_among
  pick_among-same room_id = elim (Option-cases (choose crc32 room_id (chosen e))) [
    | inl q ↦ rw (choose-same room_id, q, pick_among)
    | inr (i, q) ↦ rw (choose-same room_id, q, pick_among) (same i)
  ]

  -- Go visits the nodes in any order: two instances that register the same nodes, in whatever
  -- order, pick the same node for a room.
  pub pick_order :
      (room_id : String)
      → pick_preferred_node_for_room crc32 d room_id ≡ pick_preferred_node_for_room crc32 e room_id
  pick_order room_id =
      pick-chosen crc32 d room_id ∙ pick_among-same room_id ∙ sym (pick-chosen crc32 e room_id)

-- What an answer of GetNodeForRoom stands for.
abbrev pub Assigned : EngineInstance → NodeResult → Type 0
Assigned e (node n) = (i : ℤ) × (get_node e i ≡ some n)
Assigned e no_replicas = int_le e.replicas (pos 0) ≡ true
Assigned e (pod_not_found i) =
    (get_node e i ≡ none) × (int_le (pos 0) i ≡ true) × (int_lt i e.replicas ≡ true)

hash_mod_bounds :
    (h : ℕ) (r : ℤ)
    → int_le r (pos 0) ≡ false
    → (int_le (pos 0) (hash_mod h r) ≡ true) × (int_lt (hash_mod h r) r ≡ true)
unfolding hash_mod
hash_mod_bounds h (pos zero) q = ground arith
hash_mod_bounds h (pos (suc n)) q = (ground arith, lt→ltb _ _ (mod-lt h (omega arith)))
hash_mod_bounds h (negsuc n) q = ground arith

fallback_node-Assigned :
    (crc32 : String → ℕ) (e : EngineInstance) (room_id : String)
    → Assigned e (fallback_node crc32 e room_id)
unfolding fallback_node
fallback_node-Assigned crc32 e room_id = elim (Bool-cases (int_le e.replicas (pos 0))) [
  | inl q ↦ rw q q
  | inr q ↦ elim (Option-cases (get_node e (hash_room crc32 e room_id))) [
    | inl r ↦
        rw (q, r, fallback_node)
          (let bounds = hash_mod_bounds (crc32 room_id) e.replicas q in
            (r, unfold hash_room in bounds.0, unfold hash_room in bounds.1))
    | inr (n, r) ↦ rw (q, r, fallback_node) (hash_room crc32 e room_id, r)
  ]
]

-- GetNodeForRoom answers with a registered node, or with an error: that no replicas are configured,
-- only when there are none, or that the pod is not found, naming an index that lies from 0 up to
-- below the number of replicas and that no node is registered under.
pub get_node_for_room-Assigned :
    (crc32 : String → ℕ) (e : EngineInstance) (room_id : String)
    → Assigned e (get_node_for_room crc32 e room_id)
unfolding get_node_for_room
get_node_for_room-Assigned crc32 e room_id =
    elim (Option-cases (pick_preferred_node_for_room crc32 e room_id)) [
      | inl q ↦ rw (q, get_node_for_room) (fallback_node-Assigned crc32 e room_id)
      | inr (n, q) ↦ rw (q, get_node_for_room) (pick_some crc32 e room_id q).0
    ]
