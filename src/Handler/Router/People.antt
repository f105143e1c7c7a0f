-- ===== src/Handler/Router/People.antt =====
-- internal/handler/router.go: the sessions that a site names, before and after a message.
use pokemon_simulator_server.Base.{
  ℕ, ◌≤◌, ◌<◌, ◌≡◌, sym, subst, String, string_eq, Option, none, some, List, [], ◌∷◌, ◌++◌, ℤ,
  lookup, length, leb, arith, All, All-imp, All-append, Bool-cases, Option-cases, inl, inr,
}
use pokemon_simulator_server.Configs.{match_queue_size}
use pokemon_simulator_server.Engine.Instance.{EngineInstance}
use pokemon_simulator_server.Protocol.{GameRequest, GameResponse}
use pokemon_simulator_server.Room.Env.{Env, Parsed, parsed, null, invalid}
use pokemon_simulator_server.Room.Manager.{Server, create_room}
use pokemon_simulator_server.Room.Manager.Closing.{leave_room}
use pokemon_simulator_server.Room.Game.{StartTask, send_to}
use pokemon_simulator_server.Room.Game.Action.{handle_battle_action}
use pokemon_simulator_server.Room.Invariant.{Listed, SamePlayers-Extends, players-heap}
use pokemon_simulator_server.Room.Invariant.Sends.{
  send_to-OnlySends, handle_battle_action-OnlySends,
}
use pokemon_simulator_server.Room.People.{SamePeople, OnlySends-SamePeople}
use pokemon_simulator_server.Room.People.Rooms.{
  create_room-SamePeople, join_room-SamePeople, leave_room-SamePeople,
}
use pokemon_simulator_server.Room.People.Games.{
  start_game_for_session-SamePeople, handle_select_pokemon_and_persist-SamePeople,
}
use pokemon_simulator_server.Store.{Redis, Codec, DebugRoomInfo, Loaded, loaded, load_error}
use pokemon_simulator_server.Store.Listing.{inspect_all_rooms}
use pokemon_simulator_server.Handler.Site.{
  Site, at_server, launched, Outcome, returned, panicked, blocked, no_free_id, no_more_pages,
}
use pokemon_simulator_server.Handler.Router.{
  Router, Command, cluster_status, get_redis, create, join, leave, list_rooms, match_up, start,
  select, battle, Json, answer_redis, handle_get_redis, handle_create, handle_leave, handle_match,
  handle_battle, run_command, route, dispatch_parsed, dispatch,
}

-- Sessions that were allocated before still are.
pub still-below {ℓ} :
    {A : Type ℓ} {g h : ℕ} (f : A → ℕ) (l : List A)
    → g ≤ h
    → All (λ a. f a < g) l
    → All (λ a. f a < h) l
still-below f l le = All-imp l (λ a b. omega (arith, b, le))

-- `held` is the player that the match worker holds.
module _ (held : Option ℕ) where
  -- The table of sessions lists each session under its player's id, and the sessions of the table, of
  -- MatchQueue and of the write pumps are allocated, and so is the one that the match worker holds.
  pub record IsPeopled (x : Site) : Type 0 where
    pub table : All (Listed x.server.heap) x.server.all_sessions
    pub queued : All (λ q. q < x.server.heap.next) x.match_queue
    pub pumping : All (λ (t : ℕ × ℕ). t.0 < x.server.heap.next) x.pumps
    pub holding : (p : ℕ) → held ≡ some p → p < x.server.heap.next

  pub IsPeopled-server :
      (x : Site) (w : Server) → SamePeople x.server w → IsPeopled x → IsPeopled (at_server x w)
  IsPeopled-server x w same i =
      let ext = SamePlayers-Extends same.same_players in
      record {
        table =
            subst (All (Listed w.heap)) (sym same.same_table)
              (players-heap x.server.all_sessions ext i.table);
        queued = still-below (λ q. q) x.match_queue ext.grown i.queued;
        pumping = still-below (λ (t : ℕ × ℕ). t.0) x.pumps ext.grown i.pumping;
        holding = λ p e. let b = i.holding p e in let grown = ext.grown in omega (arith, b, grown);
      }

  -- A handler that returns leaves such a site.
  abbrev pub KeepsPeople : Outcome → Type 0
  KeepsPeople (returned x) = IsPeopled x
  KeepsPeople panicked = Unit
  KeepsPeople blocked = Unit
  KeepsPeople no_free_id = Unit
  KeepsPeople no_more_pages = Unit

  module _ (env : Env) (R : Redis) (codec : Codec) (js : Json) (e : EngineInstance) where
    answered-IsPeopled :
        (p : ℕ) (m : GameResponse) (x : Site)
        → IsPeopled x
        → IsPeopled (at_server x (send_to env p m x.server))
    answered-IsPeopled p m x =
        IsPeopled-server x _ (OnlySends-SamePeople (send_to-OnlySends env p m x.server))

    launched-IsPeopled :
        (s : Server × Option StartTask) (x : Site)
        → SamePeople x.server s.0
        → IsPeopled x
        → IsPeopled (launched x s)
    launched-IsPeopled (v, none) x same i = IsPeopled-server x v same i
    launched-IsPeopled (v, some t) x same i =
        let j = IsPeopled-server x v same i in
        record { table = j.table; queued = j.queued; pumping = j.pumping; holding = j.holding }

    answer_redis-KeepsPeople :
        (now : ℤ) (found : Option (Loaded (List DebugRoomInfo))) (p : ℕ) (x : Site)
        → IsPeopled x
        → KeepsPeople (answer_redis env R codec js e now found p x)
    unfolding answer_redis
    answer_redis-KeepsPeople now none p x i = tt
    answer_redis-KeepsPeople now (some (load_error err)) p x i = answered-IsPeopled p _ x i
    answer_redis-KeepsPeople now (some (loaded infos)) p x i = answered-IsPeopled p _ x i

    get_redis-KeepsPeople :
        (now : ℤ) (store : Option (ℕ × R.State)) (p : ℕ) (x : Site)
        → IsPeopled x
        → KeepsPeople (handle_get_redis env R codec js e now store p x)
    unfolding handle_get_redis
    get_redis-KeepsPeople now none p x i = answered-IsPeopled p _ x i
    get_redis-KeepsPeople now (some (fuel, s)) p x i =
        answer_redis-KeepsPeople now (inspect_all_rooms R codec fuel s) p x i

    create-KeepsPeople :
        (draws : List String) (p : ℕ) (x : Site)
        → IsPeopled x
        → KeepsPeople (handle_create env R codec js e draws p x)
    unfolding handle_create
    create-KeepsPeople draws p x i = elim (Option-cases (create_room env draws p x.server)) [
      | inl q ↦ rw (q, handle_create) tt
      | inr ((id, v), q) ↦
          rw (q, handle_create)
            (IsPeopled-server x v (create_room-SamePeople env draws p x.server q) i)
    ]

    match-KeepsPeople :
        (p : ℕ) (x : Site)
        → p < x.server.heap.next
        → IsPeopled x
        → KeepsPeople (handle_match env R codec js e p x)
    unfolding handle_match
    match-KeepsPeople p x b i = elim (Bool-cases (leb match_queue_size (length x.match_queue))) [
      | inl q ↦ rw q tt
      | inr q ↦ rw q (
          answered-IsPeopled p _ (record x { match_queue = x.match_queue ++ (p ∷ []) })
            (record {
              table = i.table;
              queued =
                  All-append (λ k. k < x.server.heap.next) x.match_queue (p ∷ []) i.queued (b, tt);
              pumping = i.pumping;
              holding = i.holding;
            }))
    ]

    battle-KeepsPeople :
        (p : ℕ) (raw : String) (x : Site)
        → IsPeopled x
        → KeepsPeople (handle_battle env R codec js e p raw x)
    unfolding handle_battle
    battle-KeepsPeople p raw x i = elim (Option-cases (handle_battle_action env e p raw x.server)) [
      | inl q ↦ rw (q, handle_battle) tt
      | inr (v, q) ↦
          rw (q, handle_battle)
            (IsPeopled-server x v
              (OnlySends-SamePeople (handle_battle_action-OnlySends env e p raw x.server q)) i)
    ]

    run_command-KeepsPeople :
        (draws : List String) (now : ℤ) (store : Option (ℕ × R.State)) (c : Command) (p : ℕ)
        (req : GameRequest) (x : Site)
        → p < x.server.heap.next
        → IsPeopled x
        → KeepsPeople (run_command env R codec js e draws now store c p req x)
    unfolding run_command handle_leave
    run_command-KeepsPeople draws now store cluster_status p req x b i = answered-IsPeopled p _ x i
    run_command-KeepsPeople draws now store get_redis p req x b i =
        get_redis-KeepsPeople now store p x i
    run_command-KeepsPeople draws now store create p req x b i = create-KeepsPeople draws p x i
    run_command-KeepsPeople draws now store join p req x b i =
        IsPeopled-server x _ (join_room-SamePeople env (js.join_room_id req.body) p x.server) i
    run_command-KeepsPeople draws now store leave p req x b i =
        let room_id = (x.server.heap.cell p).room_id in
        answered-IsPeopled p _ (at_server x (leave_room env (some e) room_id p x.server))
          (IsPeopled-server x _ (leave_room-SamePeople env (some e) room_id p x.server) i)
    run_command-KeepsPeople draws now store list_rooms p req x b i = answered-IsPeopled p _ x i
    run_command-KeepsPeople draws now store match_up p req x b i = match-KeepsPeople p x b i
    run_command-KeepsPeople draws now store start p req x b i =
        launched-IsPeopled _ x (start_game_for_session-SamePeople env e p x.server) i
    run_command-KeepsPeople draws now store select p req x b i =
        launched-IsPeopled _ x
          (handle_select_pokemon_and_persist-SamePeople env e p req.body x.server) i
    run_command-KeepsPeople draws now store battle p req x b i = battle-KeepsPeople p req.body x i

    route-KeepsPeople :
        (draws : List String) (now : ℤ) (store : Option (ℕ × R.State)) (router : Router) (p : ℕ)
        (req : GameRequest) (x : Site)
        → p < x.server.heap.next
        → IsPeopled x
        → KeepsPeople (route env R codec js e draws now store router p req x)
    unfolding route
    route-KeepsPeople draws now store router p req x b i =
        elim (Option-cases (lookup req.cmd router)) [
          | inl q ↦ rw (q, route) (answered-IsPeopled p _ x i)
          | inr (c, q) ↦ rw (q, route) (run_command-KeepsPeople draws now store c p req x b i)
        ]

    dispatch_parsed-KeepsPeople :
        (draws : List String) (now : ℤ) (store : Option (ℕ × R.State)) (router : Router) (p : ℕ)
        (m : Parsed GameRequest) (x : Site)
        → p < x.server.heap.next
        → IsPeopled x
        → KeepsPeople (dispatch_parsed env R codec js e draws now store router p m x)
    unfolding dispatch_parsed
    dispatch_parsed-KeepsPeople draws now store router p (invalid err) x b i = i
    dispatch_parsed-KeepsPeople draws now store router p null x b i =
        route-KeepsPeople draws now store router p _ x b i
    dispatch_parsed-KeepsPeople draws now store router p (parsed req) x b i =
        route-KeepsPeople draws now store router p req x b i

    pub dispatch-IsPeopled :
        (draws : List String) (now : ℤ) (store : Option (ℕ × R.State)) (router : Router) (p : ℕ)
        (payload : String) (x : Site)
        → p < x.server.heap.next
        → IsPeopled x
        → KeepsPeople (dispatch env R codec js e draws now store router p payload x)
    unfolding dispatch
    dispatch-IsPeopled draws now store router p payload x b i =
        dispatch_parsed-KeepsPeople draws now store router p (js.unmarshal_request payload) x b i
