-- ===== src/Handler/Steps.antt =====
-- internal/handler and internal/room/match.go: connections, messages, the match worker, the goroutines
-- and the timers as steps that interleave.
use pokemon_simulator_server.Base.{
  All-Memᴰ, Memᴰ, ℕ, ◌<◌, ◌≡◌, subst, String, string_eq, Option, List, ◌∷◌, ◌++◌, ℤ,
}
use pokemon_simulator_server.Engine.Instance.{EngineInstance}
use pokemon_simulator_server.Room.Env.{Env}
use pokemon_simulator_server.Room.Manager.{sync_room_state}
use pokemon_simulator_server.Room.Manager.Closing.{clean_up_if_still_offline}
use pokemon_simulator_server.Room.Game.{StartTask, run_start_task}
use pokemon_simulator_server.Room.People.Rooms.{sync_room_state-SamePeople}
use pokemon_simulator_server.Room.People.Games.{run_start_task-SamePeople}
use pokemon_simulator_server.Handler.Router.People.{
  IsPeopled, IsPeopled-server, KeepsPeople, dispatch-IsPeopled,
}
use pokemon_simulator_server.Room.Invariant.Leave.{clean_up_if_still_offline-IsServer}
use pokemon_simulator_server.Room.Invariant.Play.{run_start_task-IsServer}
use pokemon_simulator_server.Room.Invariant.Steps.{synced-IsServer}
use pokemon_simulator_server.Store.{Redis, Codec}
use pokemon_simulator_server.Handler.Site.{Site, returned}
use pokemon_simulator_server.Handler.Websocket.Keeps.{open_ws-IsSite, close_ws-IsSite}
use pokemon_simulator_server.Handler.Matching.Keeps.{
  KeepsTurn, worker_turn-KeepsTurn, cleaned-IsPeopled,
}
use pokemon_simulator_server.Handler.Websocket.People.{open_ws-IsPeopled, close_ws-IsPeopled}
use pokemon_simulator_server.Handler.Router.{Router, Json, dispatch}
use pokemon_simulator_server.Handler.Router.Keeps.{IsSite, Keeps, dispatch-IsSite}
use pokemon_simulator_server.Handler.Websocket.{open_ws, close_ws}
use pokemon_simulator_server.Handler.Matching.{turned, worker_turn}

-- The site beside the player that the match worker holds.
pub record Running : Type 0 where
  pub site : Site
  pub held : Option ℕ

-- The rooms and the queue are well formed, and the sessions that are named are allocated.
abbrev pub IsRunning : Running → Type 0
IsRunning x = IsSite x.site × IsPeopled x.held x.site

pub data SiteStep (R : Redis) (codec : Codec) : Running → Running → Type 0 where
  opened :
      (env : Env) (uid : String) (conn : Option ℕ) (x : Running)
      → SiteStep R codec x (record x { site = (open_ws env uid conn x.site).1 })
  ended :
      (p conn : ℕ) (x : Running) → SiteStep R codec x (record x { site = close_ws p conn x.site })
  dispatched :
      (env : Env) (js : Json) (e : EngineInstance) (draws : List String) (now : ℤ)
      (store : Option (ℕ × R.State)) (router : Router) (p conn : ℕ) (payload : String) (x : Running)
      (y : Site)
      → Memᴰ (p, conn) x.site.pumps
      → dispatch env R codec js e draws now store router p payload x.site ≡ returned y
      → SiteStep R codec x (record x { site = y })
  worked :
      (env : Env) (draws : List String) (x : Running) (held : Option ℕ) (y : Site)
      → worker_turn env draws x.held x.site.match_queue x.site ≡ turned held y
      → SiteStep R codec x (record { site = y; held = held })
  task_ran :
      (env : Env) (e : EngineInstance) (before : List StartTask) (t : StartTask)
      (after : List StartTask) (x : Running)
      → x.site.tasks ≡ before ++ t ∷ after
      → SiteStep R codec x (record x {
        site = record x.site {
          server = run_start_task env e t x.site.server;
          tasks = before ++ after;
        };
      })
  sync_ran :
      (env : Env) (before : List ℕ) (p : ℕ) (after : List ℕ) (x : Running)
      → x.site.syncs ≡ before ++ p ∷ after
      → SiteStep R codec x (record x {
        site = record x.site {
          server = sync_room_state env p x.site.server;
          syncs = before ++ after;
        };
      })
  timer_fired :
      (env : Env) (eng : Option EngineInstance) (before : List String) (uid : String)
      (after : List String) (x : Running)
      → x.site.timers ≡ before ++ uid ∷ after
      → SiteStep R codec x (record x {
        site = record x.site {
          server = clean_up_if_still_offline env eng uid x.site.server;
          timers = before ++ after;
        };
      })

-- What the site comes to from x in any number of steps.
pub data SiteReach (R : Redis) (codec : Codec) (x : Running) : Running → Type 0 where
  start_here : SiteReach R codec x x
  and_then : {y z : Running} → SiteReach R codec x y → SiteStep R codec y z → SiteReach R codec x z

-- Only the lists of goroutines and timers differ.
relisted :
    (held : Option ℕ) (x : Site) (tasks : List StartTask) (syncs : List ℕ) (timers : List String)
    → IsPeopled held x
    → IsPeopled held (record x { tasks = tasks; syncs = syncs; timers = timers })
relisted held x tasks syncs timers i = record {
  table = i.table;
  queued = i.queued;
  pumping = i.pumping;
  holding = i.holding;
}

module _ (R : Redis) (codec : Codec) where
  SiteStep-IsRunning : {x y : Running} → SiteStep R codec x y → IsRunning x → IsRunning y
  SiteStep-IsRunning (opened env uid conn x) (w, i) =
      (open_ws-IsSite env uid conn x.site w, open_ws-IsPeopled x.held env uid conn x.site i)
  SiteStep-IsRunning (ended p conn x) (w, i) =
      (close_ws-IsSite p conn x.site w, close_ws-IsPeopled x.held p conn x.site i)
  SiteStep-IsRunning (dispatched env js e draws now store router p conn payload x y served q)
        (w, i) =
      let b : p < x.site.server.heap.next =
        All-Memᴰ (λ (t : ℕ × ℕ). t.0 < x.site.server.heap.next) x.site.pumps i.pumping served in
      (
        subst Keeps q
            (dispatch-IsSite env R codec js e draws now store router p payload x.site b w),
        subst (KeepsPeople x.held) q (
            dispatch-IsPeopled x.held env R codec js e draws now store router p payload x.site b i),
      )
  SiteStep-IsRunning (worked env draws x held y q) ((ws, n), i) =
      subst KeepsTurn q
        (worker_turn-KeepsTurn env draws x.held x.site.match_queue x.site n i.queued ws i)
  SiteStep-IsRunning (task_ran env e before t after x q) ((ws, n), i) = (
    (run_start_task-IsServer env e t x.site.server ws, n),
    relisted x.held _ (before ++ after) x.site.syncs x.site.timers
        (IsPeopled-server x.held x.site _ (run_start_task-SamePeople env e t x.site.server) i),
  )
  SiteStep-IsRunning (sync_ran env before p after x q) ((ws, n), i) = (
    (synced-IsServer env p x.site.server ws, n),
    relisted x.held _ x.site.tasks (before ++ after) x.site.timers
        (IsPeopled-server x.held x.site _ (sync_room_state-SamePeople env p x.site.server) i),
  )
  SiteStep-IsRunning (timer_fired env eng before uid after x q) ((ws, n), i) = (
    (clean_up_if_still_offline-IsServer env eng uid x.site.server ws, n),
    relisted x.held _ x.site.tasks x.site.syncs (before ++ after)
        (cleaned-IsPeopled env eng uid x.held x.site i),
  )

  -- However connections open and end, messages that come in over them are dispatched, the match worker
  -- takes its turns, and the goroutines and timers run, whatever the engine, Redis and the clients
  -- answer: from a site where this holds, the rooms are well formed, MatchQueue holds
  -- at most its fifty sessions, the table lists each session under its player's id, and every session
  -- that the table, the queue, the worker or a connection names is allocated.
  pub SiteReach-IsRunning : {x y : Running} → SiteReach R codec x y → IsRunning x → IsRunning y
  SiteReach-IsRunning start_here w = w
  SiteReach-IsRunning (and_then r s) w = SiteStep-IsRunning s (SiteReach-IsRunning r w)
