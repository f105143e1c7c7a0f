-- ===== src/Engine/Connect/Backoff.antt =====
-- internal/engine/manager.go: how long attemptReconnectLoop sleeps between its turns.
use pokemon_simulator_server.Base.{
  ℕ, zero, suc, ◌^◌, ◌≡◌, refl, ap, arith, leb, le→leb, true, if◌then◌else◌,
}
use pokemon_simulator_server.Engine.Connect.{next_backoff, backoff}

backoff_late : (n : ℕ) → backoff (suc (suc (suc (suc (suc n))))) ≡ 30
unfolding backoff next_backoff
backoff_late zero = refl
backoff_late (suc n) = ap next_backoff (backoff_late n)

-- The n-th sleep is two to the n seconds, but thirty from the sixth one on.
pub backoff_lem : (n : ℕ) → backoff n ≡ (if leb 5 n then 30 else 2 ^ n)
unfolding backoff next_backoff
backoff_lem zero = refl
backoff_lem (suc zero) = refl
backoff_lem (suc (suc zero)) = refl
backoff_lem (suc (suc (suc zero))) = refl
backoff_lem (suc (suc (suc (suc zero)))) = refl
backoff_lem (suc (suc (suc (suc (suc n))))) =
    let late : leb 5 (suc (suc (suc (suc (suc n))))) ≡ true = le→leb 5 _ (omega arith) in
    rw late (backoff_late n)
