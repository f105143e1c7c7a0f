-- ===== src/Handler/Site.antt =====
-- What the handlers of internal/handler share: the server, the goroutines that were launched and have
-- not run yet, MatchQueue of internal/room/player.go, and the websockets that were closed.
use pokemon_simulator_server.Base.{ℕ, String, Option, none, some, List, [], ◌∷◌, ◌++◌}
use pokemon_simulator_server.Room.Manager.{Server}
use pokemon_simulator_server.Room.Game.{StartTask}

pub record Site : Type 0 where
  pub server : Server
  pub tasks : List StartTask
  pub match_queue : List ℕ
  pub closed : List ℕ
  pub pumps : List (ℕ × ℕ)  -- a WritePump of a session on a connection
  pub syncs : List ℕ  -- a SyncRoomState of a session
  pub timers : List String  -- a CleanUpIfStillOffline that waits

abbrev pub at_server : Site → Server → Site
at_server x v = record x { server = v }

-- A goroutine that an operation launches joins the others.
abbrev pub launched : Site → Server × Option StartTask → Site
launched x (v, none) = record x { server = v }
launched x (v, some t) = record x { server = v; tasks = x.tasks ++ (t ∷ []) }

-- What a handler comes to: it returns, it panics, it waits for MatchQueue to have space, the draws
-- of room ids that it was given are all taken, or a scan of Redis has not ended on the fuel it was given.
pub data Outcome : Type 0 where
  returned : Site → Outcome
  panicked : Outcome
  blocked : Outcome
  no_free_id : Outcome
  no_more_pages : Outcome
