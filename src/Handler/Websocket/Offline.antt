-- ===== src/Handler/Websocket/Offline.antt =====
-- internal/handler/websocket.go: what becomes of a player whose connection ends and who stays away.
use pokemon_simulator_server.Base.{
  ℕ, ◌≡◌, refl, ◌∙◌, ap, String, str_eq, string_eq, false, Option, none, some, [], ◌∷◌, ◌++◌,
  lookup, erase, nat_eq_iff, if◌then◌else◌, Map, lookup-erase, str_eq_iff,
}
use pokemon_simulator_server.Engine.Instance.{EngineInstance}
use pokemon_simulator_server.Room.Session.{Session, same_conn}
use pokemon_simulator_server.Room.GameRoom.{GameRoom}
use pokemon_simulator_server.Room.Env.{Env}
use pokemon_simulator_server.Room.Manager.{Server, player_id, find_session}
use pokemon_simulator_server.Room.Manager.Closing.{clean_up, clean_up_if_still_offline, leave_room}
use pokemon_simulator_server.Room.Manager.Exit.{remainder, leave_room_lem}
use pokemon_simulator_server.Room.People.Rooms.{leave_room-SamePeople}
use pokemon_simulator_server.Handler.Site.{Site}
use pokemon_simulator_server.Handler.Websocket.{set_conn, close_ws}

-- The server without this entry of its table of sessions.
abbrev unlisted : Server → String → Server
unlisted v uid = record v { manager = record v.manager { all_sessions = erase uid v.all_sessions } }

set_conn-cell :
    (v : Server) (p : ℕ) (conn : Option ℕ)
    → (set_conn v p conn).heap.cell p ≡ record (v.heap.cell p) { conn = conn }
set_conn-cell v p conn = rw ((nat_eq_iff p p).1 refl) refl

module _ (env : Env) (eng : Option EngineInstance) where
  clean_up-offline :
      (uid : String) (p : ℕ) (v : Server)
      → find_session v uid ≡ some p
      → (v.heap.cell p).conn ≡ none
      → str_eq (v.heap.cell p).room_id "" ≡ false
      → clean_up_if_still_offline env eng uid v
        ≡ leave_room env eng (v.heap.cell p).room_id p (unlisted v uid)
  unfolding clean_up_if_still_offline find_session clean_up
  clean_up-offline uid p v found off inside =
      rw (found, clean_up_if_still_offline, off, clean_up, inside) refl

  -- A connection that ends takes its player offline and starts his clean-up. Whenever a clean-up runs and
  -- finds the player offline and in a known room, he leaves that room as LeaveRoom does: it is gone if he was
  -- alone there, and goes on without him, with a running game over, if not; every other room is as it
  -- was; and his session is in no room and no longer in the table of sessions.
  pub close_ws-clean_up :
      (uid : String) (p q conn : ℕ) (x : Site) (v : Server) (r : GameRoom)
      → (x.server.heap.cell p).conn ≡ some conn
      → find_session v uid ≡ some q
      → (v.heap.cell q).conn ≡ none
      → str_eq (v.heap.cell q).room_id "" ≡ false
      → lookup (v.heap.cell q).room_id v.rooms ≡ some r
      → let y = close_ws p conn x in
        let w = clean_up_if_still_offline env eng uid v in
        ((y.server.heap.cell p).conn ≡ none)
        × (y.timers ≡ x.timers ++ (player_id x.server p ∷ []))
        × ((k : String)
            → lookup k w.rooms ≡ (
                if str_eq (v.heap.cell q).room_id k
                then remainder r (player_id v q)
                else lookup k v.rooms))
        × (find_session w uid ≡ none)
        × ((w.heap.cell q).room_id ≡ "")
  unfolding close_ws same_conn find_session
  close_ws-clean_up uid p q conn x v r on found off inside there =
      let room_id = (v.heap.cell q).room_id in
      let off_p : ((set_conn x.server p none).heap.cell p).conn ≡ none =
        ap (λ (s : Session). s.conn) (set_conn-cell x.server p none) in
      let cleaned = clean_up-offline uid q v found off inside in
      let (left, out) = leave_room_lem env eng room_id q (unlisted v uid) r there in
      rw (on, close_ws, same_conn, (nat_eq_iff conn conn).1 refl)
        (
          off_p,
          refl,
          (λ k. ap (λ (w : Server). lookup k w.rooms) cleaned ∙ left k),
          ap (λ (w : Server). lookup uid w.manager.all_sessions) cleaned
              ∙ ap (λ (m : Map String ℕ). lookup uid m)
                  (leave_room-SamePeople env eng room_id q (unlisted v uid)).same_table
              ∙ lookup-erase uid uid v.all_sessions
              ∙ rw ((str_eq_iff uid uid).1 refl) refl,
          ap (λ (w : Server). (w.heap.cell q).room_id) cleaned ∙ out,
        )
