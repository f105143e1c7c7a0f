-- ===== src/Handler/Matching.antt =====
-- internal/room/match.go: StartMatchWorker, turn by turn. The worker holds the first player of a pair
-- while it waits for the second.
pub mod Keeps
use pokemon_simulator_server.Base.{
  ℕ, ◌≡◌, refl, String, str_eq, string_eq, Option, none, some, List, [], ◌∷◌, false, lookup,
}
use pokemon_simulator_server.Room.Env.{Env}
use pokemon_simulator_server.Room.Manager.{Server, player_id, create_room, new_room, admitted}
use pokemon_simulator_server.Room.Match.{match_players, match_players_lem}
use pokemon_simulator_server.Handler.Site.{Site}

pub data Turn : Type 0 where
  waits : Turn
  turned : Option ℕ → Site → Turn
  no_id : Turn

module _ (env : Env) where
  unfoldable pub pair_up : Option Server → Site → Turn
  pair_up none x = no_id
  pair_up (some v) x = turned none (record x { server = v })

  -- One receive of the worker, and what it does then.
  unfoldable pub worker_turn : List String → Option ℕ → List ℕ → Site → Turn
  worker_turn draws held [] x = waits
  worker_turn draws none (p ∷ rest) x = turned (some p) (record x { match_queue = rest })
  worker_turn draws (some p) (q ∷ rest) x =
      pair_up (match_players env draws p q x.server) (record x { match_queue = rest })

  -- The worker pairs the players in the order of the queue: with p and q in front, of different ids,
  -- its next two turns take just these two and put them into one new room, as soon as a free id is drawn.
  pub worker_turn-pair :
      (draws : List String) (p q : ℕ) (rest : List ℕ) (x : Site) {id : String} {w : Server}
      → x.match_queue ≡ p ∷ q ∷ rest
      → create_room env draws p x.server ≡ some (id, w)
      → str_eq (player_id x.server p) (player_id x.server q) ≡ false
      → let y = record x { match_queue = q ∷ rest } in
        (z : Site) × (worker_turn draws none x.match_queue x ≡ turned (some p) y)
        × (worker_turn draws (some p) y.match_queue y ≡ turned none z)
        × (z.match_queue ≡ rest)
        × (lookup id z.server.rooms
            ≡ some (admitted (new_room id (player_id x.server p) p) (player_id x.server q) q))
        × ((z.server.heap.cell q).room_id ≡ id)
  unfolding worker_turn pair_up
  worker_turn-pair draws p q rest x {id} queue made other =
      let (v, matched, room, named) = match_players_lem env draws p q x.server made other in
      (
        record x { server = v; match_queue = rest },
        rw (queue, worker_turn) refl,
        rw (matched, pair_up) refl,
        refl,
        room,
        named,
      )
