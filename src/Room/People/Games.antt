-- ===== src/Room/People/Games.antt =====
-- internal/room/game.go: starting a game, its goroutine, and choosing a team.
use pokemon_simulator_server.Base.{
  ℕ, refl, String, true, List, [], ◌++◌, string_eq, str_eq, lookup, length, insert, not, ltb,
  is_some, Option, some, none, Option-cases, Bool-cases, inl, inr,
}
use pokemon_simulator_server.Engine.Instance.{
  EngineInstance, NodeResult, node, no_replicas, pod_not_found,
}
use pokemon_simulator_server.Protocol.{Pokemon, SelectPokemonRequest}
use pokemon_simulator_server.Room.GameRoom.{GameRoom, playing, is_waiting, InitJson, room_sessions}
use pokemon_simulator_server.Room.Env.{Env, Parsed, parsed, null, invalid}
use pokemon_simulator_server.Room.Manager.{Server, player_id}
use pokemon_simulator_server.Room.Manager.Closing.{is_ok}
use pokemon_simulator_server.Room.Game.{
  StartTask, put_room, Attempts, handle_start_error, start_on_node, start_with_init, start_game,
  finish_start, run_on_node, run_detached, run_start_task, start_game_in, start_game_for_session,
}
use pokemon_simulator_server.Room.Game.Select.{
  all_players_ready, convert, store_team, mark_ready, select_team, select_parsed,
  handle_select_pokemon, select_in, handle_select_pokemon_and_persist,
}
use pokemon_simulator_server.Room.Invariant.{SamePlayers-update}
use pokemon_simulator_server.Room.Invariant.Sends.{
  Marshalled-cases, OnlySends-trans, send_to-OnlySends, broadcast_to_room-OnlySends,
  send_summary-OnlySends,
}
use pokemon_simulator_server.Room.People.{
  SamePeople, SamePeople-refl, SamePeople-trans, SamePeople-heap, SamePeople-set_rooms,
  OnlySends-SamePeople,
}

module _ (env : Env) where
  handle_start_error-SamePeople :
      (room_id : String) (r : GameRoom) (reason : String) (v : Server)
      → SamePeople v (handle_start_error env room_id r reason v)
  unfolding handle_start_error
  handle_start_error-SamePeople room_id r reason v =
      SamePeople-trans (SamePeople-set_rooms v _)
        (OnlySends-SamePeople (broadcast_to_room-OnlySends env r _ _))

  start_on_node-SamePeople :
      (room_id : String) (r : GameRoom) (init_json : String) (n : NodeResult) (v : Server)
      → SamePeople v (start_on_node env room_id r init_json n v).0
  unfolding start_on_node
  start_on_node-SamePeople room_id r init_json (node n) v = SamePeople-set_rooms v _
  start_on_node-SamePeople room_id r init_json no_replicas v =
      handle_start_error-SamePeople room_id r _ v
  start_on_node-SamePeople room_id r init_json (pod_not_found i) v =
      handle_start_error-SamePeople room_id r _ v

  start_with_init-SamePeople :
      (e : EngineInstance) (room_id : String) (r : GameRoom) (init : Option InitJson) (v : Server)
      → SamePeople v (start_with_init env e room_id r init v).0
  unfolding start_with_init
  start_with_init-SamePeople e room_id r none v = handle_start_error-SamePeople room_id r _ v
  start_with_init-SamePeople e room_id r (some init) v =
      elim (Marshalled-cases (env.marshal_init init)) [
        | inl (t, q) ↦ rw (q, start_with_init) (start_on_node-SamePeople room_id r t _ v)
        | inr (err, q) ↦ rw (q, start_with_init) (handle_start_error-SamePeople room_id r _ v)
      ]

  start_game-SamePeople :
      (e : EngineInstance) (room_id : String) (r : GameRoom) (v : Server)
      → SamePeople v (start_game env e room_id r v).0
  unfolding start_game
  start_game-SamePeople e room_id r v =
      let put = SamePeople-set_rooms v (insert room_id (record r { status = playing }) v.rooms) in
      elim (Bool-cases (not (is_waiting r.status))) [
        | inl q ↦ rw q (SamePeople-refl v)
        | inr q ↦ elim (Bool-cases (ltb (length (room_sessions r v.heap)) 2)) [
          | inl few ↦
              rw (q, few) (SamePeople-trans put (handle_start_error-SamePeople room_id _ _ _))
          | inr enough ↦
              rw (q, enough) (SamePeople-trans put (start_with_init-SamePeople e room_id _ _ _))
        ]
      ]

  finish_start-SamePeople :
      (room_id : String) (r : GameRoom) (a : Attempts) (v : Server)
      → SamePeople v (finish_start env room_id r a v)
  unfolding finish_start
  finish_start-SamePeople room_id r a v =
      let called : SamePeople v (record v { calls = v.calls ++ a.calls }) = record {
        same_players = (SamePeople-refl v).same_players;
        same_table = refl;
      } in
      elim (Bool-cases (is_ok a.outcome)) [
        | inl q ↦
            rw q (
              SamePeople-trans called
                (OnlySends-SamePeople (broadcast_to_room-OnlySends env r _ _)))
        | inr q ↦ rw q (SamePeople-trans called (handle_start_error-SamePeople room_id r _ _))
      ]

  run_on_node-SamePeople :
      (t : StartTask) (r : GameRoom) (n : NodeResult) (v : Server)
      → SamePeople v (run_on_node env t r n v)
  unfolding run_on_node
  run_on_node-SamePeople t r (node n) v = finish_start-SamePeople t.room_id r _ v
  run_on_node-SamePeople t r no_replicas v = handle_start_error-SamePeople t.room_id r _ v
  run_on_node-SamePeople t r (pod_not_found i) v = handle_start_error-SamePeople t.room_id r _ v

  run_detached-SamePeople :
      (t : StartTask) (n : NodeResult) (v : Server) → SamePeople v (run_detached env t n v)
  unfolding run_detached
  run_detached-SamePeople t (node n) v = record {
    same_players = (SamePeople-refl v).same_players;
    same_table = refl;
  }
  run_detached-SamePeople t no_replicas v = SamePeople-refl v
  run_detached-SamePeople t (pod_not_found i) v = SamePeople-refl v

  pub run_start_task-SamePeople :
      (e : EngineInstance) (t : StartTask) (v : Server) → SamePeople v (run_start_task env e t v)
  unfolding run_start_task
  run_start_task-SamePeople e t v = elim (Option-cases (lookup t.room_id v.rooms)) [
    | inl q ↦ rw (q, run_start_task) (run_detached-SamePeople t _ v)
    | inr (r, q) ↦ rw (q, run_start_task) (run_on_node-SamePeople t r _ v)
  ]

  start_game_in-SamePeople :
      (e : EngineInstance) (room_id : String) (p : ℕ) (v : Server)
      → SamePeople v (start_game_in env e room_id p v).0
  unfolding start_game_in
  start_game_in-SamePeople e room_id p v = elim (Option-cases (lookup room_id v.rooms)) [
    | inl q ↦ rw (q, start_game_in) (OnlySends-SamePeople (send_to-OnlySends env p _ v))
    | inr (r, q) ↦ rw (q, start_game_in) (start_game-SamePeople e room_id r v)
  ]

  pub start_game_for_session-SamePeople :
      (e : EngineInstance) (p : ℕ) (v : Server) → SamePeople v (start_game_for_session env e p v).0
  unfolding start_game_for_session
  start_game_for_session-SamePeople e p v = elim (Bool-cases (str_eq (v.heap.cell p).room_id "")) [
    | inl q ↦ rw q (OnlySends-SamePeople (send_to-OnlySends env p _ v))
    | inr q ↦ rw q (start_game_in-SamePeople e _ p v)
  ]

  mark_ready-SamePeople :
      (e : EngineInstance) (room_id : String) (r : GameRoom) (p : ℕ) (v : Server)
      → SamePeople v (mark_ready env e room_id r p v).0
  unfolding mark_ready
  mark_ready-SamePeople e room_id r p v =
      let r' = record r { ready_players = insert (player_id v p) true r.ready_players } in
      let put = SamePeople-set_rooms v (insert room_id r' v.rooms) in
      let sent =
        OnlySends-trans (send_to-OnlySends env p _ (put_room v room_id r'))
          (broadcast_to_room-OnlySends env r' _ _) in
      elim (Bool-cases (all_players_ready r')) [
        | inr q ↦ rw q (SamePeople-trans put (OnlySends-SamePeople sent))
        | inl q ↦
            let sent' = OnlySends-trans sent (send_summary-OnlySends env r' _) in
            rw q (
              SamePeople-trans (SamePeople-trans put (OnlySends-SamePeople sent'))
                (start_game-SamePeople e room_id r' _))
      ]

  select_team-SamePeople :
      (e : EngineInstance) (room_id : String) (r : GameRoom) (p : ℕ) (team : List Pokemon)
      (v : Server)
      → SamePeople v (select_team env e room_id r p team v).0
  unfolding select_team
  select_team-SamePeople e room_id r p team v =
      let stored : SamePeople v (store_team env p (convert team).0 v) =
        SamePeople-heap v _ (SamePlayers-update v.heap p _ refl) in
      elim (Bool-cases (ltb 6 (length team))) [
        | inl q ↦ rw q (OnlySends-SamePeople (send_to-OnlySends env p _ v))
        | inr q ↦ elim (Bool-cases (convert team).1) [
          | inr c ↦
              rw (q, c)
                (SamePeople-trans stored (OnlySends-SamePeople (send_to-OnlySends env p _ _)))
          | inl c ↦ rw (q, c) (SamePeople-trans stored (mark_ready-SamePeople e room_id r p _))
        ]
      ]

  select_parsed-SamePeople :
      (e : EngineInstance) (room_id : String) (r : GameRoom) (p : ℕ)
      (req : Parsed SelectPokemonRequest) (v : Server)
      → SamePeople v (select_parsed env e room_id r p req v).0
  unfolding select_parsed
  select_parsed-SamePeople e room_id r p (invalid err) v =
      OnlySends-SamePeople (send_to-OnlySends env p _ v)
  select_parsed-SamePeople e room_id r p null v = select_team-SamePeople e room_id r p [] v
  select_parsed-SamePeople e room_id r p (parsed req) v =
      select_team-SamePeople e room_id r p req.pokemon v

  handle_select_pokemon-SamePeople :
      (e : EngineInstance) (room_id : String) (r : GameRoom) (p : ℕ) (raw : String) (v : Server)
      → SamePeople v (handle_select_pokemon env e room_id r p raw v).0
  unfolding handle_select_pokemon
  handle_select_pokemon-SamePeople e room_id r p raw v =
      elim (Bool-cases (is_some (lookup (player_id v p) r.sessions))) [
        | inr a ↦ rw a (OnlySends-SamePeople (send_to-OnlySends env p _ v))
        | inl a ↦ elim (Bool-cases (not (is_waiting r.status))) [
          | inl b ↦ rw (a, b) (OnlySends-SamePeople (send_to-OnlySends env p _ v))
          | inr b ↦ elim (Bool-cases (str_eq raw "")) [
            | inl c ↦ rw (a, b, c) (OnlySends-SamePeople (send_to-OnlySends env p _ v))
            | inr c ↦
                rw (a, b, c) (select_parsed-SamePeople e room_id r p (env.unmarshal_select raw) v)
          ]
        ]
      ]

  select_in-SamePeople :
      (e : EngineInstance) (room_id : String) (p : ℕ) (raw : String) (v : Server)
      → SamePeople v (select_in env e room_id p raw v).0
  unfolding select_in
  select_in-SamePeople e room_id p raw v = elim (Option-cases (lookup room_id v.rooms)) [
    | inl q ↦ rw (q, select_in) (OnlySends-SamePeople (send_to-OnlySends env p _ v))
    | inr (r, q) ↦ rw (q, select_in) (handle_select_pokemon-SamePeople e room_id r p raw v)
  ]

  pub handle_select_pokemon_and_persist-SamePeople :
      (e : EngineInstance) (p : ℕ) (raw : String) (v : Server)
      → SamePeople v (handle_select_pokemon_and_persist env e p raw v).0
  unfolding handle_select_pokemon_and_persist
  handle_select_pokemon_and_persist-SamePeople e p raw v =
      elim (Bool-cases (str_eq (v.heap.cell p).room_id "")) [
        | inl q ↦ rw q (OnlySends-SamePeople (send_to-OnlySends env p _ v))
        | inr q ↦ rw q (select_in-SamePeople e _ p raw v)
      ]
