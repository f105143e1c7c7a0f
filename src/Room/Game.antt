-- ===== src/Room/Game.antt =====
-- internal/room/game.go: starting a game. The goroutine that StartGame launches is a value of its
-- own, `StartTask`, and runs as a later step.
pub mod Action
pub mod Select
pub mod Start
pub mod Launch
use pokemon_simulator_server.Base.{
  ℕ, zero, suc, ◌+◌, String, str_append, Bool, true, false, Option, none, some, List, [], ◌∷◌, ◌++◌,
  ℤ, pos, str_eq, string_eq, Map, values, lookup, insert, length, ltb, not, if◌then◌else◌,
}
use pokemon_simulator_server.Engine.Node.{EngineNode}
use pokemon_simulator_server.Engine.Instance.{
  EngineInstance, NodeResult, node, no_replicas, pod_not_found, get_node_by_pod_index,
  get_node_for_room,
}
use pokemon_simulator_server.Rpc.Ring.{itoa}
use pokemon_simulator_server.Protocol.{
  Payload, GameResponse, response, code_success, code_cpp_rpc_error, code_room_not_exist,
}
use pokemon_simulator_server.Room.Session.{Session}
use pokemon_simulator_server.Room.Heap.{Heap, reply, broadcast}
use pokemon_simulator_server.Room.GameRoom.{
  GameRoom, waiting, playing, is_waiting, InitJson, build_battle_init, room_sessions,
}
use pokemon_simulator_server.Room.Env.{
  Env, Marshalled, json, unsupported, EngineCall, create_room_call, RpcOutcome, rpc_error,
  rpc_response,
}
use pokemon_simulator_server.Room.Manager.{Server, set_rooms}
use pokemon_simulator_server.Room.Manager.Closing.{is_ok}

-- What the goroutine of StartGame captures.
pub record StartTask : Type 0 where
  pub room_id : String
  pub target_node_id : ℤ
  pub init_json : String

abbrev pub Started : Type 0
Started = Server × Option StartTask

-- r.field = value, for the room that the map holds under this id
abbrev pub put_room : Server → String → GameRoom → Server
put_room v room_id r = set_rooms v (insert room_id r v.rooms)

-- The text of an error of GetNodeForRoom.
unfoldable pub node_error : NodeResult → String
node_error (node n) = ""
node_error no_replicas = "no replicas configured"
node_error (pod_not_found i) = str_append "pod " (str_append (itoa i) " not found")

-- The attempts of the goroutine from number `attempt`, `left` of them to go after the outcome `last`.
pub record Attempts : Type 0 where
  pub outcome : RpcOutcome
  pub calls : List EngineCall

module _ (env : Env) where
  -- BroadcastToRoom
  unfoldable pub broadcast_to_room : GameRoom → GameResponse → Server → Server
  broadcast_to_room r m v = record v { heap = broadcast env.marshals (values r.sessions) m v.heap }

  -- s.SendResponse
  unfoldable pub send_to : ℕ → GameResponse → Server → Server
  send_to p m v = record v { heap = reply env.marshals p m v.heap }

  -- handleStartError
  unfoldable pub handle_start_error : String → GameRoom → String → Server → Server
  handle_start_error room_id r reason v =
      broadcast_to_room r (response "game_start_error" code_cpp_rpc_error reason Payload.nil)
        (put_room v room_id (record r { status = waiting }))

  unfoldable pub start_on_node : String → GameRoom → String → NodeResult → Server → Started
  start_on_node room_id r init_json (node n) v = (
    put_room v room_id (record r { node_id = n.pod_index }),
    some (record { room_id = room_id; target_node_id = n.pod_index; init_json = init_json }),
  )
  start_on_node room_id r init_json err v =
      (handle_start_error room_id r (str_append "分配 C++ 引擎节点失败: " (node_error err)) v, none)

  unfoldable pub start_with_init :
      EngineInstance → String → GameRoom → Option InitJson → Server → Started
  start_with_init e room_id r none v =
      (handle_start_error room_id r "构造 init_json 失败: sessions must be at least 2" v, none)
  start_with_init e room_id r (some init) v = elim (env.marshal_init init) [
    | json text ↦ start_on_node room_id r text (get_node_for_room env.crc32 e r.id) v
    | unsupported err ↦ (handle_start_error room_id r (str_append "构造 init_json 失败: " err) v, none)
  ]

  -- StartGame
  unfoldable pub start_game : EngineInstance → String → GameRoom → Server → Started
  start_game e room_id r v =
      if not (is_waiting r.status)
      then (v, none)
      else (let r' = record r { status = playing } in
          let v' = put_room v room_id r' in
          if ltb (length (room_sessions r v.heap)) 2
          then (handle_start_error room_id r' "房间人数不足 2 人，无法初始化对战" v', none)
          else start_with_init e room_id r'
              (build_battle_init env.crc32 r.id (room_sessions r v.heap)) v')

  unfoldable pub create_attempts : ℕ → ℕ → Option ℕ → String → String → Attempts → Attempts
  create_attempts zero attempt client room_id init a = a
  create_attempts (suc left) attempt client room_id init a =
      let outcome = env.call_create_room client room_id init attempt in
      let a' =
        let b : Attempts = record {
          outcome = outcome;
          calls = a.calls ++ (create_room_call client room_id init ∷ []);
        } in
        b in
      let later = create_attempts left (attempt + 1) client room_id init a' in
      if is_ok outcome then a' else later

  -- The message of the last failed attempt.
  unfoldable pub start_failure : RpcOutcome → String
  start_failure (rpc_error err) = str_append "C++ 引擎调用失败: " err
  start_failure (rpc_response code message) =
      str_append "C++ 引擎响应失败: code=" (str_append (itoa code) (str_append ", msg=" message))

  unfoldable pub finish_start : String → GameRoom → Attempts → Server → Server
  finish_start room_id r a v =
      let v' = record v { calls = v.calls ++ a.calls } in
      if is_ok a.outcome
      then broadcast_to_room r (response "game_started" code_success "游戏正式开始" Payload.nil) v'
      else handle_start_error room_id r (start_failure a.outcome) v'

  -- The node of the task, or another by consistent hashing.
  unfoldable pub target_node : EngineInstance → StartTask → NodeResult
  target_node e t = elim (get_node_by_pod_index e t.target_node_id) [
    | some n ↦ node n
    | none ↦ get_node_for_room env.crc32 e t.room_id
  ]

  unfoldable pub run_on_node : StartTask → GameRoom → NodeResult → Server → Server
  run_on_node t r (node n) v =
      finish_start t.room_id r
        (create_attempts 3 1 n.client t.room_id t.init_json
          (record { outcome = rpc_error ""; calls = [] }))
        v
  run_on_node t r err v =
      handle_start_error t.room_id r (str_append "无可用 C++ 引擎节点: " (node_error err)) v

  -- The room has left the map since: the calls to the engine are made all the same.
  unfoldable pub run_detached : StartTask → NodeResult → Server → Server
  run_detached t (node n) v = record v {
    calls =
        v.calls
        ++ (create_attempts 3 1 n.client t.room_id t.init_json
            (record { outcome = rpc_error ""; calls = [] })).calls;
  }
  run_detached t err v = v

  -- The goroutine of StartGame. The status of a room that has left the map since is no longer seen,
  -- and neither are messages to players that such a room still lists after DestroyAllRooms.
  unfoldable pub run_start_task : EngineInstance → StartTask → Server → Server
  run_start_task e t v = elim (lookup t.room_id v.rooms) [
    | none ↦ run_detached t (target_node e t) v
    | some r ↦ run_on_node t r (target_node e t) v
  ]

  unfoldable pub start_game_in : EngineInstance → String → ℕ → Server → Started
  start_game_in e room_id p v = elim (lookup room_id v.rooms) [
    | none ↦ (send_to p (response "start_game_res" code_room_not_exist "房间不存在" Payload.nil) v, none)
    | some r ↦ start_game e room_id r v
  ]

  -- StartGameForSession
  unfoldable pub start_game_for_session : EngineInstance → ℕ → Server → Started
  start_game_for_session e p v =
      if str_eq (v.heap.cell p).room_id ""
      then (send_to p (response "start_game_res" code_room_not_exist "当前不在房间中" Payload.nil) v, none)
      else start_game_in e (v.heap.cell p).room_id p v
