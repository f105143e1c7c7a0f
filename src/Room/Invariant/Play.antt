-- ===== src/Room/Invariant/Play.antt =====
-- internal/room/game.go: selecting a team, starting a game and acting in it keep the rooms well
-- formed.
use pokemon_simulator_server.Base.{
  ℕ, String, string_eq, lookup, length, All-lookup, Option, some, none, Option-cases, not, ltb,
  Bool-cases, inl, inr, str_eq,
}
use pokemon_simulator_server.Engine.Instance.{
  EngineInstance, NodeResult, node, no_replicas, pod_not_found,
}
use pokemon_simulator_server.Room.GameRoom.{
  GameRoom, waiting, playing, is_waiting, InitJson, room_sessions,
}
use pokemon_simulator_server.Room.Env.{Env}
use pokemon_simulator_server.Room.Manager.{Server}
use pokemon_simulator_server.Room.Manager.Closing.{is_ok}
use pokemon_simulator_server.Room.Game.{
  StartTask, put_room, Attempts, handle_start_error, start_on_node, start_with_init, start_game,
  finish_start, run_on_node, run_detached, run_start_task, start_game_in, start_game_for_session,
}
use pokemon_simulator_server.Room.Invariant.Sends.{
  Marshalled-cases, OnlySends-IsServer, send_to-OnlySends, broadcast_to_room-OnlySends,
}
use pokemon_simulator_server.Room.Invariant.{
  IsRoom, IsServer, AreRooms-insert, IsRoom-status, IsRoom-node_id,
}

module _ (env : Env) where
  handle_start_error-IsServer :
      (room_id : String) (r : GameRoom) (reason : String) (v : Server)
      → IsRoom v.heap (room_id, r)
      → IsServer v
      → IsServer (handle_start_error env room_id r reason v)
  unfolding handle_start_error
  handle_start_error-IsServer room_id r reason v w ws =
      OnlySends-IsServer
        (broadcast_to_room-OnlySends env r _ (put_room v room_id (record r { status = waiting })))
        (AreRooms-insert v.heap v.rooms room_id _ (IsRoom-status v.heap room_id r waiting w) ws)

  start_on_node-IsServer :
      (room_id : String) (r : GameRoom) (init_json : String) (n : NodeResult) (v : Server)
      → IsRoom v.heap (room_id, r)
      → IsServer v
      → IsServer (start_on_node env room_id r init_json n v).0
  unfolding start_on_node
  start_on_node-IsServer room_id r init_json (node n) v w ws =
      AreRooms-insert v.heap v.rooms room_id _ (IsRoom-node_id v.heap room_id r n.pod_index w) ws
  start_on_node-IsServer room_id r init_json no_replicas v w ws =
      handle_start_error-IsServer room_id r _ v w ws
  start_on_node-IsServer room_id r init_json (pod_not_found i) v w ws =
      handle_start_error-IsServer room_id r _ v w ws

  start_with_init-IsServer :
      (e : EngineInstance) (room_id : String) (r : GameRoom) (init : Option InitJson) (v : Server)
      → IsRoom v.heap (room_id, r)
      → IsServer v
      → IsServer (start_with_init env e room_id r init v).0
  unfolding start_with_init
  start_with_init-IsServer e room_id r none v w ws = handle_start_error-IsServer room_id r _ v w ws
  start_with_init-IsServer e room_id r (some init) v w ws =
      elim (Marshalled-cases (env.marshal_init init)) [
        | inl (t, q) ↦ rw (q, start_with_init) (start_on_node-IsServer room_id r t _ v w ws)
        | inr (err, q) ↦ rw (q, start_with_init) (handle_start_error-IsServer room_id r _ v w ws)
      ]

  pub start_game-IsServer :
      (e : EngineInstance) (room_id : String) (r : GameRoom) (v : Server)
      → IsRoom v.heap (room_id, r)
      → IsServer v
      → IsServer (start_game env e room_id r v).0
  unfolding start_game
  start_game-IsServer e room_id r v w ws =
      let w' = IsRoom-status v.heap room_id r playing w in
      let ws' = AreRooms-insert v.heap v.rooms room_id _ w' ws in
      elim (Bool-cases (not (is_waiting r.status))) [
        | inl q ↦ rw q ws
        | inr q ↦ elim (Bool-cases (ltb (length (room_sessions r v.heap)) 2)) [
          | inl few ↦ rw (q, few) (handle_start_error-IsServer room_id _ _ _ w' ws')
          | inr enough ↦ rw (q, enough) (start_with_init-IsServer e room_id _ _ _ w' ws')
        ]
      ]

  finish_start-IsServer :
      (room_id : String) (r : GameRoom) (a : Attempts) (v : Server)
      → IsRoom v.heap (room_id, r)
      → IsServer v
      → IsServer (finish_start env room_id r a v)
  unfolding finish_start
  finish_start-IsServer room_id r a v w ws = elim (Bool-cases (is_ok a.outcome)) [
    | inl q ↦ rw q (OnlySends-IsServer (broadcast_to_room-OnlySends env r _ _) ws)
    | inr q ↦ rw q (handle_start_error-IsServer room_id r _ _ w ws)
  ]

  run_on_node-IsServer :
      (t : StartTask) (r : GameRoom) (n : NodeResult) (v : Server)
      → IsRoom v.heap (t.room_id, r)
      → IsServer v
      → IsServer (run_on_node env t r n v)
  unfolding run_on_node
  run_on_node-IsServer t r (node n) v w ws = finish_start-IsServer t.room_id r _ v w ws
  run_on_node-IsServer t r no_replicas v w ws = handle_start_error-IsServer t.room_id r _ v w ws
  run_on_node-IsServer t r (pod_not_found i) v w ws =
      handle_start_error-IsServer t.room_id r _ v w ws

  run_detached-IsServer :
      (t : StartTask) (n : NodeResult) (v : Server) → IsServer v → IsServer (run_detached env t n v)
  unfolding run_detached
  run_detached-IsServer t (node n) v ws = ws
  run_detached-IsServer t no_replicas v ws = ws
  run_detached-IsServer t (pod_not_found i) v ws = ws

  -- The goroutine of a start keeps every room well formed, whenever it runs.
  pub run_start_task-IsServer :
      (e : EngineInstance) (t : StartTask) (v : Server)
      → IsServer v
      → IsServer (run_start_task env e t v)
  unfolding run_start_task
  run_start_task-IsServer e t v ws = elim (Option-cases (lookup t.room_id v.rooms)) [
    | inl q ↦ rw (q, run_start_task) (run_detached-IsServer t _ v ws)
    | inr (r, q) ↦
        rw (q, run_start_task)
          (run_on_node-IsServer t r _ v (All-lookup (IsRoom v.heap) t.room_id v.rooms ws q) ws)
  ]

  start_game_in-IsServer :
      (e : EngineInstance) (room_id : String) (p : ℕ) (v : Server)
      → IsServer v
      → IsServer (start_game_in env e room_id p v).0
  unfolding start_game_in
  start_game_in-IsServer e room_id p v ws = elim (Option-cases (lookup room_id v.rooms)) [
    | inl q ↦ rw (q, start_game_in) (OnlySends-IsServer (send_to-OnlySends env p _ v) ws)
    | inr (r, q) ↦
        rw (q, start_game_in)
          (start_game-IsServer e room_id r v (All-lookup (IsRoom v.heap) room_id v.rooms ws q) ws)
  ]

  -- Starting a game keeps every room well formed.
  pub start_game_for_session-IsServer :
      (e : EngineInstance) (p : ℕ) (v : Server)
      → IsServer v
      → IsServer (start_game_for_session env e p v).0
  unfolding start_game_for_session
  start_game_for_session-IsServer e p v ws = elim (Bool-cases (str_eq (v.heap.cell p).room_id "")) [
    | inl q ↦ rw q (OnlySends-IsServer (send_to-OnlySends env p _ v) ws)
    | inr q ↦ rw q (start_game_in-IsServer e _ p v ws)
  ]
