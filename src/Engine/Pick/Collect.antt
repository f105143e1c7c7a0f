-- ===== src/Engine/Pick/Collect.antt =====
-- internal/engine/manager.go: the candidates that the loop of pickPreferredNodeForRoom collects.
use pokemon_simulator_server.Base.{
  ◌<◌, Bool, true, false, ◌&&◌, Option, none, some, List, [], ◌∷◌, ◌++◌, ◌≡◌, refl, ◌≢◌, ap, arith,
  ℤ, pos, int_le, int_lt, integer_eq, not, length, All, All-filter_by, filter_by,
  filter_by-keys-nil, keys, if◌then◌else◌,
}
use mathlib.Core.List.{append-nil, append_assoc}
use pokemon_simulator_server.Engine.Node.{EngineNode, snapshot, lt_70}
use pokemon_simulator_server.Engine.Instance.{
  EngineInstance, get_node, is_full, Candidates, consider, collect, no_candidates, candidates,
  snapshot_pod_indices,
}

-- The number of rooms a node may hold.
abbrev pub capacity : EngineNode → ℤ
capacity n = if int_le n.max_capacity (pos 0) then pos 10 else n.max_capacity

-- A healthy node that holds fewer rooms than it may.
abbrev pub HasRoom : EngineNode → Type 0
HasRoom n = (n.healthy ≡ true) × (int_lt n.active_rooms (capacity n) ≡ true)

unfoldable pub suits_node : Option EngineNode → Bool
unfolding is_full snapshot
suits_node none = false
suits_node (some n) = n.healthy && not (is_full (snapshot n))

unfoldable pub light_node : Option EngineNode → Bool
unfolding suits_node
light_node none = false
light_node (some n) = suits_node (some n) && lt_70 n.cpu_usage

pub HasRoom-suits_node : (n : EngineNode) → HasRoom n → suits_node (some n) ≡ true
unfolding suits_node
HasRoom-suits_node n h = ground arith

pub suits_node-HasRoom : (n : EngineNode) → suits_node (some n) ≡ true → HasRoom n
unfolding suits_node
suits_node-HasRoom n h = ground arith

pub HasRoom-light_node :
    (n : EngineNode) → HasRoom n → lt_70 n.cpu_usage ≡ true → light_node (some n) ≡ true
unfolding light_node
HasRoom-light_node n h l = ground arith

pub light_node-lt_70 : (n : EngineNode) → light_node (some n) ≡ true → lt_70 n.cpu_usage ≡ true
unfolding light_node
light_node-lt_70 n h = ground arith

append-if :
    (b : Bool) (i : ℤ) (xs ys : List ℤ)
    → (xs ++ (if b then i ∷ [] else [])) ++ ys ≡ xs ++ (if b then i ∷ ys else ys)
append-if true i xs ys = append_assoc xs (i ∷ []) ys
append-if false i xs ys = ap (λ l. l ++ ys) (append-nil xs)

candidates-under :
    (xs ys : List ℤ) → xs ≢ [] → candidates (record { under_load = xs; not_full = ys }) ≡ xs
unfolding candidates
candidates-under [] ys h = absurd (h refl)
candidates-under (x ∷ xs) ys h = refl

candidates-pos :
    (xs ys : List ℤ) → ys ≢ [] → 0 < length (candidates (record { under_load = xs; not_full = ys }))
unfolding candidates
candidates-pos [] [] h = absurd (h refl)
candidates-pos [] (y ∷ ys) h = omega arith
candidates-pos (x ∷ xs) ys h = omega arith

module _ (e : EngineInstance) where
  unfoldable pub suits : ℤ → Bool
  suits i = suits_node (get_node e i)

  unfoldable pub light : ℤ → Bool
  light i = light_node (get_node e i)

  consider-adds :
      (i : ℤ) (o : Option EngineNode) (c : Candidates)
      → consider i o c ≡ record {
        not_full = c.not_full ++ (if suits_node o then i ∷ [] else []);
        under_load = c.under_load ++ (if light_node o then i ∷ [] else []);
      }
  unfolding consider light_node suits_node
  consider-adds i none c = ground (arith, append-nil c.not_full, append-nil c.under_load)
  consider-adds i (some n) c = ground (arith, append-nil c.not_full, append-nil c.under_load)

  -- The loop collects the two filtered lists.
  collect-filter_by :
      (is : List ℤ) (c : Candidates)
      → collect e is c ≡ record {
        not_full = c.not_full ++ filter_by suits is;
        under_load = c.under_load ++ filter_by light is;
      }
  unfolding collect filter_by suits light
  collect-filter_by [] c = ground (arith, append-nil c.not_full, append-nil c.under_load)
  collect-filter_by (i ∷ is) c =
      rw (consider-adds i (get_node e i) c, collect-filter_by is)
        (cc (
          append-if (suits i) i c.not_full (filter_by suits is),
          append-if (light i) i c.under_load (filter_by light is),
        ))

  -- The candidates that the loop leaves, as filters of the registered indices.
  unfoldable pub chosen : List ℤ
  unfolding candidates
  chosen = candidates (record {
    not_full = filter_by suits (keys e.nodes);
    under_load = filter_by light (keys e.nodes);
  })

  pub chosen_lem : candidates (collect e (snapshot_pod_indices e) no_candidates) ≡ chosen
  unfolding chosen
  chosen_lem = ap candidates (collect-filter_by (keys e.nodes) no_candidates)

  light-suits : (i : ℤ) → light i ≡ true → suits i ≡ true
  unfolding light suits light_node
  light-suits i h = ground arith

  All-light-suits : (is : List ℤ) → All (λ i. light i ≡ true) is → All (λ i. suits i ≡ true) is
  All-light-suits [] h = tt
  All-light-suits (i ∷ is) h = (light-suits i h.0, All-light-suits is h.1)

  candidates_cases {ℓ} :
      (P : List ℤ → Type ℓ) (xs ys : List ℤ)
      → P xs
      → P ys
      → P (candidates (record { under_load = xs; not_full = ys }))
  unfolding candidates
  candidates_cases P [] ys h k = k
  candidates_cases P (x ∷ xs) ys h k = h

  -- Every candidate suits.
  pub chosen-suits : All (λ i. suits i ≡ true) chosen
  unfolding chosen
  chosen-suits =
      candidates_cases (All (λ i. suits i ≡ true)) (filter_by light (keys e.nodes)) _
        (All-light-suits _ (All-filter_by light (keys e.nodes)))
        (All-filter_by suits (keys e.nodes))

  -- If one node is lightly loaded, every candidate is.
  pub chosen-light :
      (j : ℤ) {m : EngineNode}
      → get_node e j ≡ some m
      → light j ≡ true
      → All (λ i. light i ≡ true) chosen
  unfolding chosen candidates get_node
  chosen-light j {m} f l =
      rw (candidates-under (filter_by light (keys e.nodes)) _ some_light)
        (All-filter_by light (keys e.nodes))
    where
      some_light : filter_by light (keys e.nodes) ≢ []
      some_light q = cc (l, filter_by-keys-nil light e.nodes j {v = m} f q)

  pub chosen-ne-nil :
      (j : ℤ) {m : EngineNode} → get_node e j ≡ some m → suits j ≡ true → 0 < length chosen
  unfolding chosen candidates get_node
  chosen-ne-nil j {m} f s =
      candidates-pos (filter_by light (keys e.nodes)) (filter_by suits (keys e.nodes))
        (λ q. cc (s, filter_by-keys-nil suits e.nodes j {v = m} f q))
