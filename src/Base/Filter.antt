-- ===== src/Base/Filter.antt =====
-- Filtering and counting by a Boolean test, and membership.
use Prim.Native.Nat.{ℕ, suc, ◌+◌, ◌≤◌}
use mathlib.Core.Path.{◌≡◌, refl, ap, sym, ◌∙◌, subst}
use mathlib.Core.Logic.{inl, inr}
use mathlib.Core.Bool.{Bool, true, false}
use mathlib.Core.List.{List, [], ◌∷◌, ◌++◌, Permᴰ, Memᴰ}
use mathlib.Core.List.Permᴰ
use mathlib.Core.Option.{some}
use native.Mathlib.Omega.{arith}
use pokemon_simulator_server.Base.Tests.{if◌then◌else◌, Bool-cases}
use pokemon_simulator_server.Base.Order.{Eq}
use pokemon_simulator_server.Base.Lists.{length, All, none_ne_some}
use pokemon_simulator_server.Base.Maps.{Map, keys, lookup}

module _ {ℓ} {A : Type ℓ} where
  unfoldable pub filter_by : (A → Bool) → List A → List A
  filter_by p [] = []
  filter_by p (a ∷ l) = let rest = filter_by p l in if p a then a ∷ rest else rest

  unfoldable pub count_by : (A → Bool) → List A → ℕ
  count_by p [] = 0
  count_by p (a ∷ l) = let rest = count_by p l in if p a then suc rest else rest

  pub count_by-append :
      (p : A → Bool) (l m : List A) → count_by p (l ++ m) ≡ count_by p l + count_by p m
  unfolding count_by
  count_by-append p [] m = omega arith
  count_by-append p (a ∷ l) m = ground (arith, count_by-append p l m)

  pub count_by-le-length : (p : A → Bool) (l : List A) → count_by p l ≤ length l
  unfolding count_by
  count_by-le-length p [] = omega arith
  count_by-le-length p (a ∷ l) = ground (arith, count_by-le-length p l)

  -- What the test keeps passes it.
  pub All-filter_by : (p : A → Bool) (l : List A) → All (λ a. p a ≡ true) (filter_by p l)
  unfolding filter_by
  All-filter_by p [] = tt
  All-filter_by p (a ∷ l) = elim (Bool-cases (p a)) [
    | inl q ↦ rw q (q, All-filter_by p l)
    | inr q ↦ rw q (All-filter_by p l)
  ]

  filter_by-cons :
      (p : A → Bool) {a b : A} (l m : List A)
      → a ≡ b
      → Permᴰ (filter_by p l) (filter_by p m)
      → Permᴰ (filter_by p (a ∷ l)) (filter_by p (b ∷ m))
  unfolding filter_by
  filter_by-cons p {a} {b} l m e q = elim (Bool-cases (p a)) [
    | inl h ↦ rw (h, ap p (sym e) ∙ h) (Permᴰ.cons e q)
    | inr h ↦ rw (h, ap p (sym e) ∙ h) q
  ]

  filter_by-swap :
      (p : A → Bool) (a b : A) (l : List A)
      → Permᴰ (filter_by p (a ∷ b ∷ l)) (filter_by p (b ∷ a ∷ l))
  unfolding filter_by
  filter_by-swap p a b l = elim (Bool-cases (p a)) [
    | inl h ↦ elim (Bool-cases (p b)) [
      | inl k ↦ rw (h, k) (Permᴰ.swap refl refl)
      | inr k ↦ rw (h, k) (Permᴰ.cons refl (Permᴰ.refl (filter_by p l)))
    ]
    | inr h ↦ elim (Bool-cases (p b)) [
      | inl k ↦ rw (h, k) (Permᴰ.cons refl (Permᴰ.refl (filter_by p l)))
      | inr k ↦ rw (h, k) (Permᴰ.refl (filter_by p l))
    ]
  ]

  -- The order of the elements does not matter to what a test keeps.
  pub filter_by-perm :
      (p : A → Bool) {l m : List A} → Permᴰ l m → Permᴰ (filter_by p l) (filter_by p m)
  unfolding filter_by
  filter_by-perm p Permᴰ.nil = Permᴰ.nil
  filter_by-perm p (Permᴰ.cons {l₁ = l} {l₂ = m} e q) = filter_by-cons p l m e (filter_by-perm p q)
  filter_by-perm p (Permᴰ.swap {a = a} {b = b} {a' = a'} {b' = b'} {l = l} d e) =
      Permᴰ.trans (filter_by-swap p a b l)
        (filter_by-cons p (a ∷ l) (b' ∷ l) e (filter_by-cons p l l d (Permᴰ.refl (filter_by p l))))
  filter_by-perm p (Permᴰ.trans q r) = Permᴰ.trans (filter_by-perm p q) (filter_by-perm p r)

  pub length-perm : {l m : List A} → Permᴰ l m → length l ≡ length m
  length-perm Permᴰ.nil = refl
  length-perm (Permᴰ.cons e q) = ap suc (length-perm q)
  length-perm (Permᴰ.swap d e) = refl
  length-perm (Permᴰ.trans q r) = length-perm q ∙ length-perm r

  pub All-Memᴰ {κ} : (P : A → Type κ) {a : A} (l : List A) → All P l → Memᴰ a l → P a
  All-Memᴰ P [] h m = elim m [ ]
  All-Memᴰ P (x ∷ l) h (Memᴰ.head e) = subst P (sym e) h.0
  All-Memᴰ P (x ∷ l) h (Memᴰ.tail m) = All-Memᴰ P l h.1 m

module _ {ℓ κ} {K : Type ℓ} {V : Type κ} ⦃e : Eq K⦄ where
  -- A test that no key of the map passes fails at every key that is found in it.
  pub filter_by-keys-nil :
      (p : K → Bool) (m : Map K V) (k : K) {v : V}
      → lookup k m ≡ some v
      → filter_by p (keys m) ≡ []
      → p k ≡ false
  unfolding lookup filter_by
  filter_by-keys-nil p [] k f h = absurd (none_ne_some f)
  filter_by-keys-nil p ((i, w) ∷ m) k {v} f h =
      ground (arith, e.beq_iff i k, filter_by-keys-nil p m k {v = v})

  -- A key that is found is one of the map's keys.
  pub Memᴰ-keys : (m : Map K V) (k : K) {v : V} → lookup k m ≡ some v → Memᴰ k (keys m)
  unfolding lookup
  Memᴰ-keys [] k f = absurd (none_ne_some f)
  Memᴰ-keys ((i, w) ∷ m) k {v} f = elim (Bool-cases (e.beq i k)) [
    | inl q ↦ Memᴰ.head (sym ((e.beq_iff i k).0 q))
    | inr q ↦ Memᴰ.tail (Memᴰ-keys m k (rw q at f))
  ]
