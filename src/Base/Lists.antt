-- ===== src/Base/Lists.antt =====
-- Lists measured and indexed by native numbers, predicates on their elements, and sorting.
use Prim.Native.Nat.{ℕ, zero, suc, ◌+◌, ◌<◌}
use mathlib.Core.Path.{◌≡◌, refl, ap, ap₂, ◌∙◌, subst}
use mathlib.Core.Logic.{inl, inr}
use mathlib.Core.Bool.{true, false}
use mathlib.Core.List.{List, [], ◌∷◌, ◌++◌, map, Permᴰ}
use mathlib.Core.Option.{Option, none, some}
use native.Mathlib.Omega.{arith}
use pokemon_simulator_server.Base.Tests.{if◌then◌else◌, Bool-cases}
use pokemon_simulator_server.Base.Order.{Order}

pub none_ne_some {ℓ} : {A : Type ℓ} {a : A} → none ≡ some a → ⊥
none_ne_some p = cc

pub true_ne_false : true ≡ false → ⊥
true_ne_false p = cc

pub eq_of_some {ℓ} : {A : Type ℓ} {a b : A} → some a ≡ some b → a ≡ b
eq_of_some p = cc

module _ {ℓ} {A : Type ℓ} where
  abbrev pub length : List A → ℕ
  length [] = 0
  length (x ∷ xs) = suc (length xs)

  abbrev pub get_elem? : List A → ℕ → Option A
  get_elem? [] i = none
  get_elem? (x ∷ xs) zero = some x
  get_elem? (x ∷ xs) (suc i) = get_elem? xs i

  pub length-append : (xs ys : List A) → length (xs ++ ys) ≡ length xs + length ys
  length-append [] ys = omega arith
  length-append (x ∷ xs) ys = omega (arith, length-append xs ys)

  -- An index within the length reads an element.
  pub get_elem?-some : (xs : List A) (i : ℕ) → i < length xs → (x : A) × (get_elem? xs i ≡ some x)
  get_elem?-some [] i h = absurd (omega arith)
  get_elem?-some (x ∷ xs) zero h = (x, refl)
  get_elem?-some (x ∷ xs) (suc i) h = get_elem?-some xs i (omega arith)

  abbrev pub All {κ} : (A → Type κ) → List A → Type κ
  All P [] = Unit
  All P (x ∷ xs) = P x × All P xs

  pub All-get_elem? {κ} :
      (P : A → Type κ) (xs : List A) (i : ℕ) {x : A} → All P xs → get_elem? xs i ≡ some x → P x
  All-get_elem? P [] i h e = absurd (none_ne_some e)
  All-get_elem? P (y ∷ xs) zero h e = subst P (eq_of_some e) h.0
  All-get_elem? P (y ∷ xs) (suc i) h e = All-get_elem? P xs i h.1 e

  pub All-imp {κ μ} :
      {P : A → Type κ} {Q : A → Type μ} (l : List A) → ((a : A) → P a → Q a) → All P l → All Q l
  All-imp [] f h = tt
  All-imp (a ∷ l) f h = (f a h.0, All-imp l f h.1)

  pub All-append {κ} : (P : A → Type κ) (xs ys : List A) → All P xs → All P ys → All P (xs ++ ys)
  All-append P [] ys h k = k
  All-append P (x ∷ xs) ys h k = (h.0, All-append P xs ys h.1 k)

module _ {ℓ κ} {A : Type ℓ} {B : Type κ} where
  pub length-map : (f : A → B) (xs : List A) → length (map f xs) ≡ length xs
  length-map f [] = refl
  length-map f (x ∷ xs) = ap suc (length-map f xs)

-- Go's `sort` on a totally ordered type: the sorted list is determined by the elements, so one
-- sorting algorithm stands for any other.
module _ {ℓ} {A : Type ℓ} (o : Order A) where
  unfoldable pub insert_sorted : A → List A → List A
  insert_sorted a [] = a ∷ []
  insert_sorted a (b ∷ l) = if o.le a b then a ∷ b ∷ l else b ∷ insert_sorted a l

  unfoldable pub sort : List A → List A
  unfolding insert_sorted
  sort [] = []
  sort (a ∷ l) = insert_sorted a (sort l)

  pub length-insert_sorted : (a : A) (l : List A) → length (insert_sorted a l) ≡ suc (length l)
  unfolding insert_sorted
  length-insert_sorted a [] = refl
  length-insert_sorted a (b ∷ l) = ground (arith, length-insert_sorted a l)

  pub length-sort : (l : List A) → length (sort l) ≡ length l
  unfolding sort
  length-sort [] = refl
  length-sort (a ∷ l) = length-insert_sorted a (sort l) ∙ ap suc (length-sort l)

  insert_sorted_comm :
      (a b : A) (l : List A)
      → insert_sorted a (insert_sorted b l) ≡ insert_sorted b (insert_sorted a l)
  unfolding insert_sorted
  insert_sorted_comm a b [] = ground (arith, o.total a b, o.antisym a b)
  insert_sorted_comm a b (c ∷ l) = ground (
    arith,
    insert_sorted_comm a b l,
    o.total a b,
    o.total b c,
    o.total a c,
    o.antisym a b,
    o.trans a b c,
    o.trans b a c,
    o.trans a c b,
    o.trans b c a,
    o.antisym a c,
    o.antisym b c,
  )

  -- Whatever order the elements come in, the sorted list is the same.
  pub sort-perm : {l m : List A} → Permᴰ l m → sort l ≡ sort m
  unfolding sort
  sort-perm Permᴰ.nil = refl
  sort-perm (Permᴰ.cons e p) = ap₂ insert_sorted e (sort-perm p)
  sort-perm (Permᴰ.swap {a = a} {b = b} {l = l} p q) =
      insert_sorted_comm a b (sort l) ∙ ap₂ (λ x y. insert_sorted x (insert_sorted y (sort l))) q p
  sort-perm (Permᴰ.trans p q) = sort-perm p ∙ sort-perm q

  -- In ascending order.
  abbrev pub IsSorted : List A → Type ℓ
  IsSorted [] = Unit
  IsSorted (a ∷ l) = All (λ b. o.le a b ≡ true) l × IsSorted l

  All-le_trans :
      (a b : A) (l : List A)
      → o.le a b ≡ true
      → All (λ c. o.le b c ≡ true) l
      → All (λ c. o.le a c ≡ true) l
  All-le_trans a b [] h k = tt
  All-le_trans a b (c ∷ l) h k = (o.trans a b c h k.0, All-le_trans a b l h k.1)

  All-insert_sorted {κ} :
      (P : A → Type κ) (a : A) (l : List A) → P a → All P l → All P (insert_sorted a l)
  unfolding insert_sorted
  All-insert_sorted P a [] p h = (p, tt)
  All-insert_sorted P a (b ∷ l) p h = elim (Bool-cases (o.le a b)) [
    | inl q ↦ rw q (p, h)
    | inr q ↦ rw q (h.0, All-insert_sorted P a l p h.1)
  ]

  insert_sorted-IsSorted : (a : A) (l : List A) → IsSorted l → IsSorted (insert_sorted a l)
  unfolding insert_sorted
  insert_sorted-IsSorted a [] s = (tt, tt)
  insert_sorted-IsSorted a (b ∷ l) s = elim (Bool-cases (o.le a b)) [
    | inl q ↦ rw q ((q, All-le_trans a b l q s.0), s)
    | inr q ↦ rw q (
      All-insert_sorted (λ c. o.le b c ≡ true) a l (ground (arith, o.total a b)) s.0,
      insert_sorted-IsSorted a l s.1,
    )
  ]

  pub sort-IsSorted : (l : List A) → IsSorted (sort l)
  unfolding sort
  sort-IsSorted [] = tt
  sort-IsSorted (a ∷ l) = insert_sorted-IsSorted a (sort l) (sort-IsSorted l)

  -- Sorting keeps what holds of every element.
  pub All-sort {κ} : (P : A → Type κ) (l : List A) → All P l → All P (sort l)
  unfolding sort
  All-sort P [] h = tt
  All-sort P (a ∷ l) h = All-insert_sorted P a (sort l) h.0 (All-sort P l h.1)
