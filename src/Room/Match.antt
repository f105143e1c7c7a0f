-- ===== src/Room/Match.antt =====
-- internal/room/match.go: one round of StartMatchWorker, for the two players that it took from
-- MatchQueue.
use pokemon_simulator_server.Base.{
  ℕ, ◌≡◌, refl, ◌∙◌, ap, String, false, List, arith, string_eq, str_eq, lookup, Option, some, none,
  Option-cases, none_ne_some, eq_of_some, subst, inl, inr, str_eq_iff,
}
use pokemon_simulator_server.Protocol.{Player}
use pokemon_simulator_server.Room.Env.{Env}
use pokemon_simulator_server.Room.Manager.{
  Server, player_id, draw_room_id, new_room, admitted, create_room, join_room,
}
use pokemon_simulator_server.Room.Manager.Enter.{MayJoin, create_room_lem, join_room-admits}
use pokemon_simulator_server.Room.Invariant.{
  SamePlayers, SamePlayers-trans, SamePlayers-reply, SamePlayers-set_room_id,
}

module _ (env : Env) where
  -- The first player creates a room, the second joins the one that the first player's session names.
  unfoldable pub match_players : List String → ℕ → ℕ → Server → Option Server
  match_players draws p q v = elim (create_room env draws p v) [
    | none ↦ none
    | some (id, w) ↦ some (join_room env (w.heap.cell p).room_id q w).0
  ]

  pub create_room-SamePlayers :
      (draws : List String) (p : ℕ) (v : Server) {id : String} {w : Server}
      → create_room env draws p v ≡ some (id, w)
      → SamePlayers v.heap w.heap
  unfolding create_room
  create_room-SamePlayers draws p v e = elim (Option-cases (draw_room_id draws v.rooms)) [
    | inl q ↦ absurd (none_ne_some (rw (q, create_room) at e))
    | inr (id, q) ↦
        subst (λ (x : String × Server). SamePlayers v.heap x.1.heap)
          (eq_of_some (rw (q, create_room) at e))
          (SamePlayers-trans (SamePlayers-set_room_id v.heap p id)
            (SamePlayers-reply env.marshals p _ _))
  ]

  alone-MayJoin :
      (id : String) (p q : ℕ) (v w : Server)
      → lookup id w.rooms ≡ some (new_room id (player_id v p) p)
      → str_eq (player_id v p) (player_id w q) ≡ false
      → MayJoin env w id q (new_room id (player_id v p) p)
  unfolding lookup
  alone-MayJoin id p q v w found other = record {
    found = found;
    new_here = rw other refl;
    open_room = refl;
    space = omega arith;
  }

  -- Two queued sessions of different players end up in one new room that lists both, as soon as a free
  -- id is drawn; the session of the second names it.
  pub match_players_lem :
      (draws : List String) (p q : ℕ) (v : Server) {id : String} {w : Server}
      → create_room env draws p v ≡ some (id, w)
      → str_eq (player_id v p) (player_id v q) ≡ false
      → (x : Server) × (match_players draws p q v ≡ some x)
        × (lookup id x.rooms ≡ some (admitted (new_room id (player_id v p) p) (player_id v q) q))
        × ((x.heap.cell q).room_id ≡ id)
  unfolding match_players
  match_players_lem draws p q v {id} {w} e other =
      let (fresh, rooms, named) = create_room_lem env draws p v e in
      let same : player_id w q ≡ player_id v q =
        ap (λ (k : Player). k.id) ((create_room-SamePlayers draws p v e).at q) in
      let found : lookup id w.rooms ≡ some (new_room id (player_id v p) p) =
        rooms id ∙ rw ((str_eq_iff id id).1 refl) refl in
      let may = alone-MayJoin id p q v w found (rw same other) in
      let (entered, grown, flag, at_q) = join_room-admits env id q w _ may in
      (
        (join_room env id q w).0,
        rw (e, match_players, named) refl,
        entered id ∙ rw ((str_eq_iff id id).1 refl, same) refl,
        at_q,
      )
