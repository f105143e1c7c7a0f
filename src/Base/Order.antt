-- ===== src/Base/Order.antt =====
-- Equality tests and total orders as interfaces, for map keys and for `sort`.
use Prim.Native.Nat.{ℕ, suc, ◌+◌, compare as compare_ℕ, Ordering}
use Prim.Native.String.{String, compare}
use Prim.Native.String.compare
use mathlib.Core.Path.{◌≡◌, refl}
use mathlib.Core.Logic.{◌↔◌, ◌⊎◌, inl}
use mathlib.Core.Bool.{Bool, true, false}
use native.Mathlib.Omega.{arith}
use text.Mathlib.Text.{is_le, is_lt, ◌==◌ as str_eq}
use text.Mathlib.TextEquality.{eq_iff, path_by_compare}
use pokemon_simulator_server.Base.Tests.{leb, ltb, nat_eq, nat_eq_iff}

pub record Eq {ℓ} (A : Type ℓ) : Type ℓ where
  pub beq : A → A → Bool
  pub beq_iff : (a b : A) → (beq a b ≡ true) ↔ (a ≡ b)

-- A total order as a test, with the laws that make sorting determined.
pub record Order {ℓ} (A : Type ℓ) : Type ℓ where
  pub le : A → A → Bool
  pub total : (a b : A) → (le a b ≡ true) ⊎ (le b a ≡ true)
  pub antisym : (a b : A) → le a b ≡ true → le b a ≡ true → a ≡ b
  pub trans : (a b c : A) → le a b ≡ true → le b c ≡ true → le a c ≡ true

-- Go's `int` and `int32`: `negsuc n` is -(n + 1).
pub data ℤ : Type 0 where
  pos : ℕ → ℤ
  negsuc : ℕ → ℤ

abbrev pub int_eq : ℤ → ℤ → Bool
int_eq (pos a) (pos b) = nat_eq a b
int_eq (pos a) (negsuc b) = false
int_eq (negsuc a) (pos b) = false
int_eq (negsuc a) (negsuc b) = nat_eq a b

abbrev pub int_le : ℤ → ℤ → Bool
int_le (pos a) (pos b) = leb a b
int_le (pos a) (negsuc b) = false
int_le (negsuc a) (pos b) = true
int_le (negsuc a) (negsuc b) = leb b a

abbrev pub int_lt : ℤ → ℤ → Bool
int_lt (pos a) (pos b) = ltb a b
int_lt (pos a) (negsuc b) = false
int_lt (negsuc a) (pos b) = true
int_lt (negsuc a) (negsuc b) = ltb b a

-- i + 1 and i - 1
abbrev pub int_suc : ℤ → ℤ
int_suc (pos a) = pos (suc a)
int_suc (negsuc Prim.Native.Nat.zero) = pos 0
int_suc (negsuc (suc a)) = negsuc a

abbrev pub int_pred : ℤ → ℤ
int_pred (pos Prim.Native.Nat.zero) = negsuc 0
int_pred (pos (suc a)) = pos a
int_pred (negsuc a) = negsuc (suc a)

pub int_eq_iff : (a b : ℤ) → (int_eq a b ≡ true) ↔ (a ≡ b)
int_eq_iff a b = ground arith

pub int_le_total : (a b : ℤ) → (int_le a b ≡ true) ⊎ (int_le b a ≡ true)
int_le_total a b = ground arith

pub int_le_antisym : (a b : ℤ) → int_le a b ≡ true → int_le b a ≡ true → a ≡ b
int_le_antisym a b h k = ground arith

pub int_le_trans : (a b c : ℤ) → int_le a b ≡ true → int_le b c ≡ true → int_le a c ≡ true
int_le_trans a b c h k = ground arith

abbrev pub str_le : String → String → Bool
str_le a b = is_le (compare a b)

abbrev pub str_lt : String → String → Bool
str_lt a b = is_lt (compare a b)

pub nat_le_total : (a b : ℕ) → (leb a b ≡ true) ⊎ (leb b a ≡ true)
nat_le_total a b = ground arith

pub nat_le_antisym : (a b : ℕ) → leb a b ≡ true → leb b a ≡ true → a ≡ b
nat_le_antisym a b h k = ground arith

pub nat_le_trans : (a b c : ℕ) → leb a b ≡ true → leb b c ≡ true → leb a c ≡ true
nat_le_trans a b c h k = ground arith

pub str_le_total : (s t : String) → (str_le s t ≡ true) ⊎ (str_le t s ≡ true)
str_le_total String.[] String.[] = inl refl
str_le_total String.[] (String.◌∷◌ d t) = ground (arith, compare.nil-cons d t)
str_le_total (String.◌∷◌ c s) String.[] = ground (arith, compare.nil-cons c s)
str_le_total (String.◌∷◌ c s) (String.◌∷◌ d t) =
    ground (arith, str_le_total s t, compare.cons-cons c d s t, compare.cons-cons d c t s)

pub str_le_antisym :
    (s t : String) → str_le s t ≡ true → str_le t s ≡ true → compare s t ≡ Ordering.eq
str_le_antisym String.[] String.[] h k = refl
str_le_antisym String.[] (String.◌∷◌ d t) h k = ground (arith, compare.cons-nil d t)
str_le_antisym (String.◌∷◌ c s) String.[] h k = ground (arith, compare.cons-nil c s)
str_le_antisym (String.◌∷◌ c s) (String.◌∷◌ d t) h k =
    ground (arith, str_le_antisym s t, compare.cons-cons c d s t, compare.cons-cons d c t s)

pub str_le_trans : (s t u : String) → str_le s t ≡ true → str_le t u ≡ true → str_le s u ≡ true
str_le_trans String.[] t String.[] h k = refl
str_le_trans String.[] t (String.◌∷◌ e u) h k = ground (arith, compare.nil-cons e u)
str_le_trans (String.◌∷◌ c s) String.[] u h k = ground (arith, compare.cons-nil c s)
str_le_trans (String.◌∷◌ c s) (String.◌∷◌ d t) String.[] h k = ground (arith, compare.cons-nil d t)
str_le_trans (String.◌∷◌ c s) (String.◌∷◌ d t) (String.◌∷◌ e u) h k = ground (
  arith,
  str_le_trans s t u,
  compare.cons-cons c d s t,
  compare.cons-cons d e t u,
  compare.cons-cons c e s u,
)

instance abbrev pub string_eq : Eq String
string_eq = record { beq = str_eq; beq_iff = eq_iff }

instance abbrev pub natural_eq : Eq ℕ
natural_eq = record { beq = nat_eq; beq_iff = nat_eq_iff }

instance abbrev pub integer_eq : Eq ℤ
integer_eq = record { beq = int_eq; beq_iff = int_eq_iff }

unfoldable pub string_order : Order String
string_order = record {
  le = str_le;
  total = str_le_total;
  antisym = λ s t h k. path_by_compare s t (str_le_antisym s t h k);
  trans = str_le_trans;
}

unfoldable pub int_order : Order ℤ
int_order = record {
  le = int_le;
  total = int_le_total;
  antisym = int_le_antisym;
  trans = int_le_trans;
}

unfoldable pub nat_order : Order ℕ
nat_order = record {
  le = leb;
  total = nat_le_total;
  antisym = nat_le_antisym;
  trans = nat_le_trans;
}
