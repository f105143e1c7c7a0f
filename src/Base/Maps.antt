-- ===== src/Base/Maps.antt =====
-- Go's maps as association lists: the list's order is the order in which `range` happens to visit
-- the entries, so what holds of every list holds of every iteration order.
use Prim.Native.Nat.{suc, ◌≤◌}
use mathlib.Core.Bool.{true}
use mathlib.Core.Path.{◌≡◌, refl, ap, ap₂, subst, ◌∙◌}
use mathlib.Core.Logic.{inl, inr}
use mathlib.Core.List.{List, [], ◌∷◌, map}
use mathlib.Core.Option.{Option, none, some}
use native.Mathlib.Omega.{arith}
use pokemon_simulator_server.Base.Tests.{if◌then◌else◌, is_some, Bool-cases}
use pokemon_simulator_server.Base.Order.{Eq}
use pokemon_simulator_server.Base.Lists.{length, All, All-imp, none_ne_some, eq_of_some}

abbrev pub Map {ℓ κ} : Type ℓ → Type κ → Type (ℓ ⊔ κ)
Map K V = List (K × V)

module _ {ℓ κ} {K : Type ℓ} {V : Type κ} where
  abbrev pub keys : Map K V → List K
  keys = map (λ (p : K × V). p.0)

  abbrev pub values : Map K V → List V
  values = map (λ (p : K × V). p.1)

module _ {ℓ κ} {K : Type ℓ} {V : Type κ} ⦃e : Eq K⦄ where
  -- v, ok := m[k]
  unfoldable pub lookup : K → Map K V → Option V
  lookup k [] = none
  lookup k ((j, v) ∷ m) = if e.beq j k then some v else lookup k m

  -- m[k] = v
  unfoldable pub insert : K → V → Map K V → Map K V
  insert k v [] = (k, v) ∷ []
  insert k v ((j, w) ∷ m) = if e.beq j k then (j, v) ∷ m else (j, w) ∷ insert k v m

  -- delete(m, k)
  unfoldable pub erase : K → Map K V → Map K V
  erase k [] = []
  erase k ((j, w) ∷ m) = let rest = erase k m in if e.beq j k then rest else (j, w) ∷ rest

  pub lookup-insert :
      (k j : K) (v : V) (m : Map K V)
      → lookup j (insert k v m) ≡ (if e.beq k j then some v else lookup j m)
  unfolding lookup insert
  lookup-insert k j v [] = refl
  lookup-insert k j v ((i, w) ∷ m) =
      ground (arith, e.beq_iff k j, e.beq_iff i k, e.beq_iff i j, lookup-insert k j v m)

  pub lookup-erase :
      (k j : K) (m : Map K V) → lookup j (erase k m) ≡ (if e.beq k j then none else lookup j m)
  unfolding lookup erase
  lookup-erase k j [] = ground arith
  lookup-erase k j ((i, w) ∷ m) =
      ground (arith, e.beq_iff k j, e.beq_iff i k, e.beq_iff i j, lookup-erase k j m)

  -- A new key adds one entry, a known one none.
  pub length-insert :
      (k : K) (v : V) (m : Map K V)
      → length (insert k v m) ≡ (if is_some (lookup k m) then length m else suc (length m))
  unfolding lookup insert
  length-insert k v [] = refl
  length-insert k v ((i, w) ∷ m) = ground (arith, length-insert k v m)

  pub length-erase-le : (k : K) (m : Map K V) → length (erase k m) ≤ length m
  unfolding erase
  length-erase-le k [] = omega arith
  length-erase-le k ((i, w) ∷ m) = ground (arith, length-erase-le k m)

  pub insert-ne-nil : (k : K) (v : V) (m : Map K V) → 1 ≤ length (insert k v m)
  unfolding insert
  insert-ne-nil k v [] = omega arith
  insert-ne-nil k v ((i, w) ∷ m) = ground arith

  -- A property of all entries.
  pub All-insert {μ} :
      (P : K × V → Type μ) (k : K) (v : V) (m : Map K V)
      → ((j : K) → j ≡ k → P (j, v))
      → All P m
      → All P (insert k v m)
  unfolding insert
  All-insert P k v [] p h = (p k refl, tt)
  All-insert P k v ((i, w) ∷ m) p h = elim (Bool-cases (e.beq i k)) [
    | inl q ↦ rw q (p i ((e.beq_iff i k).0 q), h.1)
    | inr q ↦ rw q (h.0, All-insert P k v m p h.1)
  ]

  pub All-erase {μ} : (P : K × V → Type μ) (k : K) (m : Map K V) → All P m → All P (erase k m)
  unfolding erase
  All-erase P k [] h = tt
  All-erase P k ((i, w) ∷ m) h = elim (Bool-cases (e.beq i k)) [
    | inl q ↦ rw q (All-erase P k m h.1)
    | inr q ↦ rw q (h.0, All-erase P k m h.1)
  ]

  pub All-lookup {μ} :
      (P : K × V → Type μ) (k : K) (m : Map K V) {v : V} → All P m → lookup k m ≡ some v → P (k, v)
  unfolding lookup
  All-lookup P k [] h q = absurd (none_ne_some q)
  All-lookup P k ((i, w) ∷ m) {v} h q = elim (Bool-cases (e.beq i k)) [
    | inl hit ↦ subst P (ap₂ (λ x y. (x, y)) ((e.beq_iff i k).0 hit) (eq_of_some (rw hit at q))) h.0
    | inr miss ↦ All-lookup P k m h.1 (rw miss at q)
  ]

module _ {ℓ κ} {K : Type ℓ} {V : Type κ} ⦃e : Eq K⦄ where
  lookup-cons_some :
      (k i : K) (w : V) (m : Map K V)
      → ((v : V) × (lookup k m ≡ some v))
      → (v : V) × (lookup k ((i, w) ∷ m) ≡ some v)
  unfolding lookup
  lookup-cons_some k i w m (v, q) = elim (Bool-cases (e.beq i k)) [
    | inl hit ↦ (w, rw hit)
    | inr miss ↦ (v, rw miss q)
  ]

  lookup-cons_self : (i : K) (w : V) (m : Map K V) → lookup i ((i, w) ∷ m) ≡ some w
  unfolding lookup
  lookup-cons_self i w m = rw ((e.beq_iff i i).1 refl)

  -- Every key of a map is found in it.
  pub All-keys-lookup : (m : Map K V) → All (λ k. (v : V) × (lookup k m ≡ some v)) (keys m)
  All-keys-lookup [] = tt
  All-keys-lookup ((i, w) ∷ m) = (
    (w, lookup-cons_self i w m),
    All-imp (keys m) (λ k. lookup-cons_some k i w m) (All-keys-lookup m),
  )

  -- Writing under a key that is there keeps the keys.
  pub keys-insert_known :
      (k : K) (v : V) (m : Map K V) → is_some (lookup k m) ≡ true → keys (insert k v m) ≡ keys m
  unfolding lookup insert
  keys-insert_known k v [] h = absurd (cc h)
  keys-insert_known k v ((i, w) ∷ m) h = ground (arith, keys-insert_known k v m)

  -- Writing under a key that is about to be deleted changes nothing.
  pub erase-insert : (k : K) (v : V) (m : Map K V) → erase k (insert k v m) ≡ erase k m
  unfolding insert erase
  erase-insert k v [] = ground (arith, e.beq_iff k k)
  erase-insert k v ((i, w) ∷ m) = elim (Bool-cases (e.beq i k)) [
    | inl q ↦ rw q (rw q refl)
    | inr q ↦ rw q (rw q (ap (λ l. (i, w) ∷ l) (erase-insert k v m)))
  ]

  pub lookup-insert_self : (k : K) (v : V) (m : Map K V) → lookup k (insert k v m) ≡ some v
  lookup-insert_self k v m = lookup-insert k k v m ∙ rw ((e.beq_iff k k).1 refl)

-- Two maps over the same keys keep them under the same updates.
module _ {ℓ κ μ} {K : Type ℓ} {V : Type κ} {W : Type μ} ⦃e : Eq K⦄ where
  pub keys-insert :
      (k : K) (v : V) (w : W) (m : Map K V) (n : Map K W)
      → keys m ≡ keys n
      → keys (insert k v m) ≡ keys (insert k w n)
  unfolding insert
  keys-insert k v w [] [] h = refl
  keys-insert k v w [] ((j, y) ∷ n) h = absurd (cc h)
  keys-insert k v w ((i, x) ∷ m) [] h = absurd (cc h)
  keys-insert k v w ((i, x) ∷ m) ((j, y) ∷ n) h = ground (arith, keys-insert k v w m n)

  pub keys-erase :
      (k : K) (m : Map K V) (n : Map K W) → keys m ≡ keys n → keys (erase k m) ≡ keys (erase k n)
  unfolding erase
  keys-erase k [] [] h = refl
  keys-erase k [] ((j, y) ∷ n) h = absurd (cc h)
  keys-erase k ((i, x) ∷ m) [] h = absurd (cc h)
  keys-erase k ((i, x) ∷ m) ((j, y) ∷ n) h = ground (arith, keys-erase k m n)

  pub is_some-lookup-keys :
      (k : K) (m : Map K V) (n : Map K W)
      → keys m ≡ keys n
      → is_some (lookup k m) ≡ is_some (lookup k n)
  unfolding lookup
  is_some-lookup-keys k [] [] h = refl
  is_some-lookup-keys k [] ((j, y) ∷ n) h = absurd (cc h)
  is_some-lookup-keys k ((i, x) ∷ m) [] h = absurd (cc h)
  is_some-lookup-keys k ((i, x) ∷ m) ((j, y) ∷ n) h = ground (arith, is_some-lookup-keys k m n)
