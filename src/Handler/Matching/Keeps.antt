-- ===== src/Handler/Matching/Keeps.antt =====
-- internal/room/match.go and manager.go: rooms and named sessions over the turns of the match worker
-- and the clean-ups.
use pokemon_simulator_server.Base.{
  eq_of_some, none_ne_some, ℕ, ◌≤◌, ◌<◌, refl, subst, String, string_eq, Option, none, some, List,
  [], ◌∷◌, length, arith, Option-cases, inl, inr, All,
}
use pokemon_simulator_server.Engine.Instance.{EngineInstance}
use pokemon_simulator_server.Room.Env.{Env}
use pokemon_simulator_server.Room.Manager.Closing.{clean_up_if_still_offline}
use pokemon_simulator_server.Room.Match.{match_players}
use pokemon_simulator_server.Room.People.Rooms.{match_players-SamePeople, clean_up-table}
use pokemon_simulator_server.Handler.Router.People.{IsPeopled, IsPeopled-server, still-below}
use pokemon_simulator_server.Room.Invariant.{Listed, SamePlayers-Extends, players-heap, IsServer}
use pokemon_simulator_server.Room.Invariant.Steps.{matched-IsServer}
use pokemon_simulator_server.Handler.Site.{Site, at_server}
use pokemon_simulator_server.Handler.Router.Keeps.{IsSite}
use pokemon_simulator_server.Handler.Matching.{Turn, waits, turned, no_id, pair_up, worker_turn}

-- A turn of the worker that comes to something leaves a well-formed site.
abbrev pub KeepsTurn : Turn → Type 0
KeepsTurn waits = Unit
KeepsTurn (turned held x) = IsSite x × IsPeopled held x
KeepsTurn no_id = Unit

module _ (env : Env) where
  pub worker_turn-KeepsTurn :
      (draws : List String) (held : Option ℕ) (queue : List ℕ) (x : Site)
      → length queue ≤ 50
      → All (λ q. q < x.server.heap.next) queue
      → IsServer x.server
      → IsPeopled held x
      → KeepsTurn (worker_turn env draws held queue x)
  unfolding worker_turn pair_up
  worker_turn-KeepsTurn draws held [] x n at_q ws i = tt
  worker_turn-KeepsTurn draws none (p ∷ rest) x n at_q ws i = (
    (ws, omega (arith, n)),
    record {
      table = i.table;
      queued = at_q.1;
      pumping = i.pumping;
      holding = λ k e. subst (λ j. j < x.server.heap.next) (eq_of_some e) at_q.0;
    },
  )
  worker_turn-KeepsTurn draws (some p) (q ∷ rest) x n at_q ws i =
      let y : Site = record x { match_queue = rest } in
      let j : IsPeopled none y = record {
        table = i.table;
        queued = at_q.1;
        pumping = i.pumping;
        holding = λ k e. absurd (none_ne_some e);
      } in
      elim (Option-cases (match_players env draws p q x.server)) [
        | inl e ↦ rw (e, pair_up) tt
        | inr (v, e) ↦
            rw (e, pair_up)
              (
                (
                  matched-IsServer env draws p q x.server (i.holding p refl) at_q.0 e ws,
                  omega (arith, n),
                ),
                IsPeopled-server none y v (match_players-SamePeople env draws p q x.server e) j,
              )
      ]

-- The sessions that are named are still allocated after a clean-up.
pub cleaned-IsPeopled :
    (env : Env) (eng : Option EngineInstance) (uid : String) (held : Option ℕ) (x : Site)
    → IsPeopled held x
    → IsPeopled held (at_server x (clean_up_if_still_offline env eng uid x.server))
cleaned-IsPeopled env eng uid held x i =
    let (table, same) = clean_up-table env eng (Listed x.server.heap) uid x.server i.table in
    let ext = SamePlayers-Extends same in
    let grown = ext.grown in
    record {
      table = players-heap _ ext table;
      queued = still-below (λ q. q) x.match_queue grown i.queued;
      pumping = still-below (λ (t : ℕ × ℕ). t.0) x.pumps grown i.pumping;
      holding = λ p e. let b = i.holding p e in omega (arith, b, grown);
    }
