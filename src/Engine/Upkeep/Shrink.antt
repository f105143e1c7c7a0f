-- ===== src/Engine/Upkeep/Shrink.antt =====
-- internal/engine/manager.go: what shrinkReplicaCountIfNeeded keeps.
use pokemon_simulator_server.Base.{
  zero, suc, ◌≡◌, ◌⊎◌, refl, true, Option, none, some, List, [], ◌∷◌, ℤ, pos, negsuc, arith, int_le,
  int_lt, int_le_trans, int_suc, int_pred, integer_eq, keys, All, All-Memᴰ, Memᴰ-keys, Bool-cases,
  inl, inr,
}
use pokemon_simulator_server.Engine.Node.{EngineNode}
use pokemon_simulator_server.Engine.Instance.{EngineInstance, get_node}
use pokemon_simulator_server.Engine.Upkeep.{
  raise, max_healthy_index, shrink_to, shrink_replica_count_if_needed,
}

raise-le : (i : ℤ) (o : Option EngineNode) (top : ℤ) → int_le top (raise i o top) ≡ true
unfolding raise
raise-le i none top = ground arith
raise-le i (some n) top = ground arith

raise_healthy :
    (i : ℤ) (n : EngineNode) (top : ℤ) → n.healthy ≡ true → int_le i (raise i (some n) top) ≡ true
unfolding raise
raise_healthy i n top h = ground arith

max_healthy_index-le :
    (e : EngineInstance) (is : List ℤ) (top : ℤ) → int_le top (max_healthy_index e is top) ≡ true
unfolding max_healthy_index
max_healthy_index-le e [] top = ground arith
max_healthy_index-le e (i ∷ is) top =
    int_le_trans top _ _ (raise-le i (get_node e i) top) (max_healthy_index-le e is _)

-- A node that is healthy lies no higher than `top`.
Below : EngineInstance → ℤ → ℤ → Type 0
Below e top i = (n : EngineNode) → get_node e i ≡ some n → n.healthy ≡ true → int_le i top ≡ true

max_healthy_index-Below :
    (e : EngineInstance) (is : List ℤ) (top : ℤ) → All (Below e (max_healthy_index e is top)) is
unfolding max_healthy_index Below
max_healthy_index-Below e [] top = tt
max_healthy_index-Below e (i ∷ is) top = (
  (λ n q h.
      int_le_trans i _ _ (rw q (raise_healthy i n top h))
        (max_healthy_index-le e is (raise i (get_node e i) top))),
  max_healthy_index-Below e is _,
)

int_lt_suc : (i top : ℤ) → int_le i top ≡ true → int_lt i (int_suc top) ≡ true
int_lt_suc (pos a) (pos b) h = ground arith
int_lt_suc (pos a) (negsuc b) h = absurd (cc h)
int_lt_suc (negsuc a) (pos b) h = refl
int_lt_suc (negsuc a) (negsuc zero) h = refl
int_lt_suc (negsuc a) (negsuc (suc b)) h = ground arith

int_pred_lt : (i : ℤ) → int_lt (int_pred i) i ≡ true
int_pred_lt (pos zero) = refl
int_pred_lt (pos (suc a)) = ground arith
int_pred_lt (negsuc a) = ground arith

shrink_to-keeps :
    (e : EngineInstance) (i top : ℤ)
    → int_le i top ≡ true
    → int_lt i e.replicas ≡ true
    → int_lt i (shrink_to (int_suc top) e).replicas ≡ true
unfolding shrink_to
shrink_to-keeps e i top le lt = elim (Bool-cases (int_le e.replicas (int_suc top))) [
  | inl q ↦ rw q lt
  | inr q ↦ rw q (int_lt_suc i top le)
]

shrink_to-bounds :
    (replicas : ℤ) (e : EngineInstance)
    → let d = shrink_to replicas e in
      (d ≡ e) ⊎ ((int_lt d.replicas e.replicas ≡ true) × (int_lt d.max_pod_index d.replicas ≡ true))
unfolding shrink_to
shrink_to-bounds replicas e = elim (Bool-cases (int_le e.replicas replicas)) [
  | inl q ↦ rw q (inl refl)
  | inr q ↦ elim (Bool-cases (int_le replicas e.max_pod_index)) [
    | inl m ↦ rw (q, m) (inr (ground arith, int_pred_lt replicas))
    | inr m ↦ rw (q, m) (inr (ground arith, ground arith))
  ]
]

-- Shrinking changes nothing, or it lowers the replica count and leaves the highest known index below
-- the new count.
pub shrink-bounds :
    (e : EngineInstance)
    → let d = shrink_replica_count_if_needed e in
      (d ≡ e) ⊎ ((int_lt d.replicas e.replicas ≡ true) × (int_lt d.max_pod_index d.replicas ≡ true))
unfolding shrink_replica_count_if_needed
shrink-bounds e =
    elim (Bool-cases (int_lt (max_healthy_index e (keys e.nodes) (negsuc 0)) (pos 0))) [
      | inl q ↦ rw q (inl refl)
      | inr q ↦ rw q (shrink_to-bounds _ e)
    ]

-- Shrinking the replica count leaves every healthy node that was within it within it.
pub shrink-keeps :
    (e : EngineInstance) (i : ℤ) (n : EngineNode)
    → get_node e i ≡ some n
    → n.healthy ≡ true
    → int_lt i e.replicas ≡ true
    → int_lt i (shrink_replica_count_if_needed e).replicas ≡ true
unfolding shrink_replica_count_if_needed get_node Below
shrink-keeps e i n q h lt =
    let top = max_healthy_index e (keys e.nodes) (negsuc 0) in
    let le : int_le i top ≡ true =
      All-Memᴰ (Below e top) (keys e.nodes) (max_healthy_index-Below e (keys e.nodes) (negsuc 0))
        (Memᴰ-keys e.nodes i q) n q h in
    elim (Bool-cases (int_lt top (pos 0))) [
      | inl none_healthy ↦ rw none_healthy lt
      | inr some_healthy ↦ rw some_healthy (shrink_to-keeps e i top le lt)
    ]
