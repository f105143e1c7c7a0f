-- ===== src/Handler/Router/Keeps.antt =====
-- internal/handler/router.go: what every dispatched message keeps.
use pokemon_simulator_server.Base.{
  ℕ, ◌≤◌, ◌<◌, String, string_eq, Option, none, some, List, [], ◌∷◌, ℤ, lookup, length,
  length-append, leb, arith, Bool-cases, Option-cases, inl, inr,
}
use pokemon_simulator_server.Configs.{match_queue_size}
use pokemon_simulator_server.Engine.Instance.{EngineInstance}
use pokemon_simulator_server.Protocol.{GameRequest, GameResponse}
use pokemon_simulator_server.Room.Env.{Env, Parsed, parsed, null, invalid}
use pokemon_simulator_server.Room.Manager.{Server, create_room}
use pokemon_simulator_server.Room.Manager.Closing.{leave_room}
use pokemon_simulator_server.Room.Game.{StartTask, send_to}
use pokemon_simulator_server.Room.Game.Action.{handle_battle_action}
use pokemon_simulator_server.Room.Invariant.{IsServer}
use pokemon_simulator_server.Room.Invariant.Sends.{
  OnlySends-IsServer, send_to-OnlySends, handle_battle_action-OnlySends,
}
use pokemon_simulator_server.Room.Invariant.Enter.{create_room-IsServer, join_room-IsServer}
use pokemon_simulator_server.Room.Invariant.Leave.{leave_room-IsServer}
use pokemon_simulator_server.Room.Invariant.Play.{start_game_for_session-IsServer}
use pokemon_simulator_server.Room.Invariant.Select.{handle_select_pokemon_and_persist-IsServer}
use pokemon_simulator_server.Store.{Redis, Codec, DebugRoomInfo, Loaded, loaded, load_error}
use pokemon_simulator_server.Store.Listing.{inspect_all_rooms}
use pokemon_simulator_server.Handler.Site.{
  Site, at_server, launched, Outcome, returned, panicked, blocked, no_free_id, no_more_pages,
}
use pokemon_simulator_server.Handler.Router.{
  Router, Command, cluster_status, get_redis, create, join, leave, list_rooms, match_up, start,
  select, battle, Json, answer_redis, handle_get_redis, handle_create, handle_leave, handle_match,
  handle_battle, run_command, route, dispatch_parsed, dispatch,
}

-- The rooms are well formed and MatchQueue is within its size.
abbrev pub IsSite : Site → Type 0
IsSite x = IsServer x.server × (length x.match_queue ≤ 50)

-- A handler that returns leaves such a site.
abbrev pub Keeps : Outcome → Type 0
Keeps (returned x) = IsSite x
Keeps panicked = Unit
Keeps blocked = Unit
Keeps no_free_id = Unit
Keeps no_more_pages = Unit

module _ (env : Env) (R : Redis) (codec : Codec) (js : Json) (e : EngineInstance) where
  answered-IsSite :
      (p : ℕ) (m : GameResponse) (x : Site)
      → IsSite x
      → IsSite (at_server x (send_to env p m x.server))
  answered-IsSite p m x (ws, q) = (OnlySends-IsServer (send_to-OnlySends env p m x.server) ws, q)

  launched-IsSite :
      (s : Server × Option StartTask) (x : Site)
      → IsServer s.0
      → length x.match_queue ≤ 50
      → IsSite (launched x s)
  launched-IsSite (v, none) x ws q = (ws, q)
  launched-IsSite (v, some t) x ws q = (ws, q)

  answer_redis-Keeps :
      (now : ℤ) (found : Option (Loaded (List DebugRoomInfo))) (p : ℕ) (x : Site)
      → IsSite x
      → Keeps (answer_redis env R codec js e now found p x)
  unfolding answer_redis
  answer_redis-Keeps now none p x w = tt
  answer_redis-Keeps now (some (load_error err)) p x w = answered-IsSite p _ x w
  answer_redis-Keeps now (some (loaded infos)) p x w = answered-IsSite p _ x w

  get_redis-Keeps :
      (now : ℤ) (store : Option (ℕ × R.State)) (p : ℕ) (x : Site)
      → IsSite x
      → Keeps (handle_get_redis env R codec js e now store p x)
  unfolding handle_get_redis
  get_redis-Keeps now none p x w = answered-IsSite p _ x w
  get_redis-Keeps now (some (fuel, s)) p x w =
      answer_redis-Keeps now (inspect_all_rooms R codec fuel s) p x w

  create-Keeps :
      (draws : List String) (p : ℕ) (x : Site)
      → p < x.server.heap.next
      → IsSite x
      → Keeps (handle_create env R codec js e draws p x)
  unfolding handle_create
  create-Keeps draws p x b (ws, n) = elim (Option-cases (create_room env draws p x.server)) [
    | inl q ↦ rw (q, handle_create) tt
    | inr ((id, v), q) ↦ rw (q, handle_create) (create_room-IsServer env draws p x.server b ws q, n)
  ]

  match-Keeps : (p : ℕ) (x : Site) → IsSite x → Keeps (handle_match env R codec js e p x)
  unfolding handle_match
  match-Keeps p x (ws, n) = elim (Bool-cases (leb match_queue_size (length x.match_queue))) [
    | inl q ↦ rw q tt
    | inr q ↦ rw q (
      OnlySends-IsServer (send_to-OnlySends env p _ x.server) ws,
      (let l = length-append x.match_queue (p ∷ []) in ground (arith, l, q)),
    )
  ]

  battle-Keeps :
      (p : ℕ) (raw : String) (x : Site) → IsSite x → Keeps (handle_battle env R codec js e p raw x)
  unfolding handle_battle
  battle-Keeps p raw x (ws, n) = elim (Option-cases (handle_battle_action env e p raw x.server)) [
    | inl q ↦ rw (q, handle_battle) tt
    | inr (v, q) ↦
        rw (q, handle_battle)
          (OnlySends-IsServer (handle_battle_action-OnlySends env e p raw x.server q) ws, n)
  ]

  run_command-Keeps :
      (draws : List String) (now : ℤ) (store : Option (ℕ × R.State)) (c : Command) (p : ℕ)
      (req : GameRequest) (x : Site)
      → p < x.server.heap.next
      → IsSite x
      → Keeps (run_command env R codec js e draws now store c p req x)
  unfolding run_command handle_leave
  run_command-Keeps draws now store cluster_status p req x b w = answered-IsSite p _ x w
  run_command-Keeps draws now store get_redis p req x b w = get_redis-Keeps now store p x w
  run_command-Keeps draws now store create p req x b w = create-Keeps draws p x b w
  run_command-Keeps draws now store join p req x b (ws, n) =
      (join_room-IsServer env (js.join_room_id req.body) p x.server b ws, n)
  run_command-Keeps draws now store leave p req x b (ws, n) =
      answered-IsSite p _
        (at_server x (leave_room env (some e) (x.server.heap.cell p).room_id p x.server))
        (leave_room-IsServer env (some e) (x.server.heap.cell p).room_id p x.server ws, n)
  run_command-Keeps draws now store list_rooms p req x b w = answered-IsSite p _ x w
  run_command-Keeps draws now store match_up p req x b w = match-Keeps p x w
  run_command-Keeps draws now store start p req x b (ws, n) =
      launched-IsSite _ x (start_game_for_session-IsServer env e p x.server ws) n
  run_command-Keeps draws now store select p req x b (ws, n) =
      launched-IsSite _ x (handle_select_pokemon_and_persist-IsServer env e p req.body x.server ws)
        n
  run_command-Keeps draws now store battle p req x b w = battle-Keeps p req.body x w

  route-Keeps :
      (draws : List String) (now : ℤ) (store : Option (ℕ × R.State)) (router : Router) (p : ℕ)
      (req : GameRequest) (x : Site)
      → p < x.server.heap.next
      → IsSite x
      → Keeps (route env R codec js e draws now store router p req x)
  unfolding route
  route-Keeps draws now store router p req x b w = elim (Option-cases (lookup req.cmd router)) [
    | inl q ↦ rw (q, route) (answered-IsSite p _ x w)
    | inr (c, q) ↦ rw (q, route) (run_command-Keeps draws now store c p req x b w)
  ]

  dispatch_parsed-Keeps :
      (draws : List String) (now : ℤ) (store : Option (ℕ × R.State)) (router : Router) (p : ℕ)
      (m : Parsed GameRequest) (x : Site)
      → p < x.server.heap.next
      → IsSite x
      → Keeps (dispatch_parsed env R codec js e draws now store router p m x)
  unfolding dispatch_parsed
  dispatch_parsed-Keeps draws now store router p (invalid err) x b w = w
  dispatch_parsed-Keeps draws now store router p null x b w =
      route-Keeps draws now store router p _ x b w
  dispatch_parsed-Keeps draws now store router p (parsed req) x b w =
      route-Keeps draws now store router p req x b w

  -- Whatever a client with an allocated session sends, and whatever is registered under the commands: if
  -- its handler returns, the rooms are well formed and MatchQueue holds at most its fifty sessions, as before.
  pub dispatch-IsSite :
      (draws : List String) (now : ℤ) (store : Option (ℕ × R.State)) (router : Router) (p : ℕ)
      (payload : String) (x : Site)
      → p < x.server.heap.next
      → IsSite x
      → Keeps (dispatch env R codec js e draws now store router p payload x)
  unfolding dispatch
  dispatch-IsSite draws now store router p payload x b w =
      dispatch_parsed-Keeps draws now store router p (js.unmarshal_request payload) x b w
