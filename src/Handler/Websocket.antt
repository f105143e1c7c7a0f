-- ===== src/Handler/Websocket.antt =====
-- internal/handler/websocket.go: HandleWS, from the connection to its end. A websocket is a handle.
pub mod Reconnect
pub mod Offline
pub mod People
pub mod Keeps
use pokemon_simulator_server.Base.{
  ℕ, suc, ◌+◌, String, str_eq, string_eq, Bool, true, false, Option, none, some, List, [], ◌∷◌,
  ◌++◌, lookup, is_some, not, if◌then◌else◌,
}
use pokemon_simulator_server.Protocol.{Player, GameResponse, Payload, response, code_success}
use pokemon_simulator_server.Room.Session.{Session, new_session, same_conn}
use pokemon_simulator_server.Room.Heap.{Heap, update}
use pokemon_simulator_server.Room.Env.{Env}
use pokemon_simulator_server.Room.Manager.{Server, find_session, register_session}
use pokemon_simulator_server.Room.Game.{send_to}
use pokemon_simulator_server.Room.Restore.{allocate}
use pokemon_simulator_server.Handler.Site.{Site, at_server}

abbrev pub set_conn : Server → ℕ → Option ℕ → Server
set_conn v p conn = record v { heap = update v.heap p (record (v.heap.cell p) { conn = conn }) }

-- oldSession.Conn.Close(), if there is one
abbrev pub close_old : Option ℕ → List ℕ → List ℕ
close_old none closed = closed
close_old (some conn) closed = closed ++ (conn ∷ [])

-- &model.Player{ID: uid}
abbrev pub player_of : String → Player
player_of uid = record { id = uid; username = "" }

-- The session of a player who comes for the first time.
unfoldable pub open_new : String → ℕ → Site → Site
open_new uid conn x =
    let v = record x.server {
      heap = allocate x.server.heap (new_session (player_of uid) (some conn));
    } in
    at_server x (register_session v uid x.server.heap.next)

module _ (env : Env) where
  -- What a player who comes back is sent: his room's state, by a goroutine, or that he is in no room.
  unfoldable pub resume : ℕ → Site → Site
  resume p x =
      let room_id = (x.server.heap.cell p).room_id in
      if str_eq room_id ""
      then at_server x
          (send_to env p (response "reconnect_success" code_success "已重连至大厅" Payload.nil) x.server)
      else if is_some (lookup room_id x.server.rooms)
      then record x { syncs = x.syncs ++ (p ∷ []) }
      else at_server x
          (send_to env p (response "reconnect_success" code_success "已重连至大厅" Payload.nil) x.server)

  -- The session of a player who is known gets the new connection; an old one is closed.
  unfoldable pub take_over : ℕ → ℕ → Site → Site
  take_over p conn x = resume p (record x {
    server = set_conn x.server p (some conn);
    closed = close_old (x.server.heap.cell p).conn x.closed;
    pumps = x.pumps ++ ((p, conn) ∷ []);
  })

  unfoldable pub open_found : String → ℕ → Option ℕ → Site → ℕ × Site
  open_found uid conn none x = (
    x.server.heap.next,
    record (open_new uid conn x) { pumps = x.pumps ++ ((x.server.heap.next, conn) ∷ []) },
  )
  open_found uid conn (some p) x = (p, take_over p conn x)

  -- HandleWS up to its read loop, on an upgraded connection or none: the session that it serves, or
  -- none if it returns at once.
  unfoldable pub open_ws : String → Option ℕ → Site → Option ℕ × Site
  open_ws uid none x = (none, x)
  open_ws uid (some conn) x =
      if str_eq uid ""
      then (none, x)
      else (let opened = open_found uid conn (find_session x.server uid) x in
          (some opened.0, opened.1))

-- The deferred calls of HandleWS: a session that is still on this connection is offline, and its
-- clean-up starts to wait; then the connection is closed.
unfoldable pub close_ws : ℕ → ℕ → Site → Site
unfolding same_conn
close_ws p conn x =
    let s = x.server.heap.cell p in
    let closed = x.closed ++ (conn ∷ []) in
    if same_conn s.conn conn
    then record x {
      server = set_conn x.server p none;
      timers = x.timers ++ (s.player.id ∷ []);
      closed = closed;
    }
    else record x { closed = closed }
