-- ===== src/Rpc/Ring/Search.antt =====
-- sort.Search, as internal/rpc/client.go calls it: binary search for the first index that passes.
use pokemon_simulator_server.Base.{
  ℕ, zero, suc, ◌+◌, ◌/◌, ◌≤◌, ◌<◌, ◌≡◌, inl, inr, Bool, true, false, List, [], ◌∷◌, arith, ltb,
  Bool-cases, if◌then◌else◌,
}

module _ {ℓ} {A : Type ℓ} where
  abbrev pub get_or : List A → ℕ → A → A
  get_or [] i d = d
  get_or (x ∷ xs) zero d = x
  get_or (x ∷ xs) (suc i) d = get_or xs i d

-- The loop over [i, j): each round halves the distance, so a fuel of the distance is enough.
pub search_from : (ℕ → Bool) → ℕ → ℕ → ℕ → ℕ
search_from f zero i j = i
search_from f (suc fuel) i j =
    let right = search_from f fuel ((i + j) / 2 + 1) j in
    let left = search_from f fuel i ((i + j) / 2) in
    if ltb i j then (if f ((i + j) / 2) then left else right) else i

unfoldable pub search : (ℕ → Bool) → ℕ → ℕ
unfolding search_from
search f n = search_from f n 0 n

-- What a search over [0, n) should answer: every index below fails, every one from there passes.
pub record IsFirst (f : ℕ → Bool) (n r : ℕ) : Type 0 where
  pub bounded : r ≤ n
  pub below : (k : ℕ) → k < r → f k ≡ false
  pub above : (k : ℕ) → r ≤ k → k < n → f k ≡ true

module _ (f : ℕ → Bool) (n : ℕ) (mono : (i j : ℕ) → i ≤ j → j < n → f i ≡ true → f j ≡ true) where
  -- What stands before an index that fails, fails.
  not-pass : (k m : ℕ) → k ≤ m → m < n → f m ≡ false → f k ≡ false
  not-pass k m le lt fail = elim (Bool-cases (f k)) [
    | inl pass ↦ absurd (cc (fail, mono k m le lt pass))
    | inr q ↦ q
  ]

  search_from-IsFirst :
      (fuel i j : ℕ)
      → i ≤ j
      → j ≤ n
      → j ≤ i + fuel
      → ((k : ℕ) → k < i → f k ≡ false)
      → ((k : ℕ) → j ≤ k → k < n → f k ≡ true)
      → IsFirst f n (search_from f fuel i j)
  unfolding search_from
  search_from-IsFirst zero i j ij jn fu lo hi = record {
    bounded = omega arith;
    below = lo;
    above = λ k p q. hi k (omega arith) q;
  }
  search_from-IsFirst (suc fuel) i j ij jn fu lo hi = elim (Bool-cases (ltb i j)) [
    | inr done ↦
        rw done
          (record { bounded = omega arith; below = lo; above = λ k p q. hi k (ground arith) q })
    | inl more ↦ elim (Bool-cases (f ((i + j) / 2))) [
      | inl pass ↦
          rw (more, pass)
            (search_from-IsFirst fuel i ((i + j) / 2) (ground arith) (ground arith) (ground arith)
              lo (λ k p q. mono ((i + j) / 2) k p q pass))
      | inr fail ↦
          rw (more, fail)
            (search_from-IsFirst fuel ((i + j) / 2 + 1) j (ground arith) jn (ground arith)
              (λ k p. not-pass k ((i + j) / 2) (omega arith) (ground arith) fail) hi)
    ]
  ]

  -- On a test that stays passed once it is passed, the search finds the first index that passes.
  pub search-IsFirst : IsFirst f n (search f n)
  unfolding search
  search-IsFirst =
      search_from-IsFirst n 0 n (omega arith) (omega arith) (omega arith)
        (λ k p. absurd (omega arith)) (λ k p q. absurd (omega arith))
