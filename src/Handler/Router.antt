-- ===== src/Handler/Router.antt =====
-- internal/handler/router.go: Router, its handlers and Dispatch. What encoding/json makes of the
-- requests is a parameter, and so is the text of the answer to get_redis.
pub mod Keeps
pub mod People
use pokemon_simulator_server.Base.{
  ℕ, String, str_append, str_eq, string_eq, Bool, true, false, Option, none, some, List, [], ◌∷◌,
  ◌++◌, ℤ, pos, Map, lookup, insert, length, leb, if◌then◌else◌,
}
use pokemon_simulator_server.Configs.{match_queue_size}
use pokemon_simulator_server.Engine.Instance.{EngineInstance, EngineStatus, get_status}
use pokemon_simulator_server.Protocol.{
  GameRequest, GameResponse, Payload, response, code_success, code_server_err, code_send_invalid,
}
use pokemon_simulator_server.Room.Env.{Env, Parsed, parsed, null, invalid}
use pokemon_simulator_server.Room.Manager.{Server, create_room, join_room, get_rooms}
use pokemon_simulator_server.Room.Manager.Closing.{leave_room}
use pokemon_simulator_server.Room.Game.{send_to, start_game_for_session}
use pokemon_simulator_server.Room.Game.Select.{handle_select_pokemon_and_persist}
use pokemon_simulator_server.Room.Game.Action.{handle_battle_action}
use pokemon_simulator_server.Store.{Redis, Codec, DebugRoomInfo, Loaded, loaded, load_error}
use pokemon_simulator_server.Store.Listing.{inspect_all_rooms}
use pokemon_simulator_server.Handler.Site.{
  Site, at_server, launched, Outcome, returned, panicked, blocked, no_free_id, no_more_pages,
}

-- The handlers that InitGameRouters registers.
pub data Command : Type 0 where
  cluster_status get_redis create join leave list_rooms match_up start select battle : Command

-- Router
abbrev pub Router : Type 0
Router = Map String Command

-- NewRouter
abbrev pub new_router : Router
new_router = []

-- Register
unfoldable pub register : String → Command → Router → Router
register cmd handler router = insert cmd handler router

-- InitGameRouters
unfoldable pub init_game_routers : Router → Router
init_game_routers router = register "battle_action" battle (
    register "select_pokemon" select (
      register "start_game" start (
        register "match" match_up (
          register "list_rooms" list_rooms (
            register "leave_room" leave (
              register "join_room" join (
                register "create_room" create (
                  register "get_redis" get_redis
                    (register "cluster_status" cluster_status router)))))))))

-- What encoding/json makes of a request, of the data of join_room, where an error leaves the id empty
-- or as far as it was read, and of the object that get_redis answers with.
pub record Json : Type 0 where
  pub unmarshal_request : String → Parsed GameRequest
  pub join_room_id : String → String
  pub debug_json : ℕ → ℤ → List DebugRoomInfo → EngineStatus → String

module _ (env : Env) (R : Redis) (codec : Codec) (js : Json) (e : EngineInstance) where
  abbrev answer : String → ℤ → String → Payload → ℕ → Site → Site
  answer cmd code msg payload p x =
      at_server x (send_to env p (response cmd code msg payload) x.server)

  unfoldable pub answer_redis : ℤ → Option (Loaded (List DebugRoomInfo)) → ℕ → Site → Outcome
  answer_redis now none p x = no_more_pages
  answer_redis now (some (load_error err)) p x =
      returned (answer "get_redis_res" code_server_err "无法读取快照" Payload.nil p x)
  answer_redis now (some (loaded infos)) p x = returned (
      answer "get_redis_res" code_success "获取 Redis 数据成功"
        (Payload.raw_json (js.debug_json (length infos) now infos (get_status e))) p x)

  -- The store and the fuel of pages for it, or none for a nil Store.
  unfoldable pub handle_get_redis : ℤ → Option (ℕ × R.State) → ℕ → Site → Outcome
  handle_get_redis now none p x =
      returned (answer "get_redis_res" code_server_err "Redis 未初始化" Payload.nil p x)
  handle_get_redis now (some (fuel, s)) p x =
      answer_redis now (inspect_all_rooms R codec fuel s) p x

  unfoldable pub handle_create : List String → ℕ → Site → Outcome
  handle_create draws p x = elim (create_room env draws p x.server) [
    | none ↦ no_free_id
    | some (room_id, v) ↦ returned (at_server x v)
  ]

  unfoldable pub handle_leave : ℕ → Site → Site
  handle_leave p x =
      answer "leave_room_res" code_success "已退出房间" Payload.nil p
        (at_server x (leave_room env (some e) (x.server.heap.cell p).room_id p x.server))

  -- room.MatchQueue <- s
  unfoldable pub handle_match : ℕ → Site → Outcome
  handle_match p x =
      if leb match_queue_size (length x.match_queue)
      then blocked
      else returned (
          answer "match_res" code_success "已进入匹配队列" Payload.nil p
            (record x { match_queue = x.match_queue ++ (p ∷ []) }))

  unfoldable pub handle_battle : ℕ → String → Site → Outcome
  handle_battle p raw x = elim (handle_battle_action env e p raw x.server) [
    | none ↦ panicked
    | some v ↦ returned (at_server x v)
  ]

  -- A handler on a request of the session p. `draws` are the ids that CreateRoom draws.
  unfoldable pub run_command :
      List String → ℤ → Option (ℕ × R.State) → Command → ℕ → GameRequest → Site → Outcome
  run_command draws now store cluster_status p req x =
      returned
        (answer "cluster_status_res" code_success "获取集群状态成功" (Payload.cluster (get_status e)) p x)
  run_command draws now store get_redis p req x = handle_get_redis now store p x
  run_command draws now store create p req x = handle_create draws p x
  run_command draws now store join p req x =
      returned (at_server x (join_room env (js.join_room_id req.body) p x.server).0)
  run_command draws now store leave p req x = returned (handle_leave p x)
  run_command draws now store list_rooms p req x =
      returned
        (answer "list_rooms_res" code_success "获取列表成功" (Payload.rooms (get_rooms x.server)) p x)
  run_command draws now store match_up p req x = handle_match p x
  run_command draws now store start p req x =
      returned (launched x (start_game_for_session env e p x.server))
  run_command draws now store select p req x =
      returned (launched x (handle_select_pokemon_and_persist env e p req.body x.server))
  run_command draws now store battle p req x = handle_battle p req.body x

  -- The handler of the request's command, or the answer that there is none.
  unfoldable pub route :
      List String → ℤ → Option (ℕ × R.State) → Router → ℕ → GameRequest → Site → Outcome
  route draws now store router p req x = elim (lookup req.cmd router) [
    | none ↦ returned (answer (str_append req.cmd "_res") code_send_invalid "未知指令" Payload.nil p x)
    | some command ↦ run_command draws now store command p req x
  ]

  unfoldable pub dispatch_parsed :
      List String → ℤ → Option (ℕ × R.State) → Router → ℕ → Parsed GameRequest → Site → Outcome
  dispatch_parsed draws now store router p (invalid err) x = returned x
  dispatch_parsed draws now store router p null x =
      route draws now store router p (record { cmd = ""; body = "" }) x
  dispatch_parsed draws now store router p (parsed req) x = route draws now store router p req x

  -- Dispatch
  unfoldable pub dispatch :
      List String → ℤ → Option (ℕ × R.State) → Router → ℕ → String → Site → Outcome
  dispatch draws now store router p payload x =
      dispatch_parsed draws now store router p (js.unmarshal_request payload) x
