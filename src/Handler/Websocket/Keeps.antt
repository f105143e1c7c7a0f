-- ===== src/Handler/Websocket/Keeps.antt =====
-- internal/handler/websocket.go: the rooms, as connections open and end.
use pokemon_simulator_server.Base.{
  ℕ, refl, String, str_eq, string_eq, Option, none, some, lookup, is_some, Bool-cases, inl, inr,
}
use pokemon_simulator_server.Room.Session.{new_session, same_conn}
use pokemon_simulator_server.Room.Env.{Env}
use pokemon_simulator_server.Room.Manager.{find_session, register_session}
use pokemon_simulator_server.Room.Invariant.{AreRooms-heap, SamePlayers-update}
use pokemon_simulator_server.Room.Invariant.Sends.{OnlySends-IsServer, send_to-OnlySends}
use pokemon_simulator_server.Room.Invariant.Steps.{allocated-IsServer}
use pokemon_simulator_server.Handler.Site.{Site}
use pokemon_simulator_server.Handler.Router.Keeps.{IsSite}
use pokemon_simulator_server.Handler.Websocket.{
  open_new, player_of, resume, take_over, open_found, open_ws, close_ws,
}

module _ (env : Env) where
  resume-IsSite : (p : ℕ) (x : Site) → IsSite x → IsSite (resume env p x)
  unfolding resume
  resume-IsSite p x (ws, n) = elim (Bool-cases (str_eq (x.server.heap.cell p).room_id "")) [
    | inl q ↦ rw q (OnlySends-IsServer (send_to-OnlySends env p _ x.server) ws, n)
    | inr q ↦ elim (Bool-cases (is_some (lookup (x.server.heap.cell p).room_id x.server.rooms))) [
      | inl r ↦ rw (q, r) (ws, n)
      | inr r ↦ rw (q, r) (OnlySends-IsServer (send_to-OnlySends env p _ x.server) ws, n)
    ]
  ]

  open_found-IsSite :
      (uid : String) (conn : ℕ) (o : Option ℕ) (x : Site)
      → IsSite x
      → IsSite (open_found env uid conn o x).1
  unfolding open_found open_new take_over register_session
  open_found-IsSite uid conn none x (ws, n) =
      (allocated-IsServer (new_session (player_of uid) (some conn)) x.server ws, n)
  open_found-IsSite uid conn (some p) x (ws, n) =
      resume-IsSite p _
        (AreRooms-heap x.server.rooms (SamePlayers-update x.server.heap p _ refl) ws, n)

  pub open_ws-IsSite :
      (uid : String) (conn : Option ℕ) (x : Site) → IsSite x → IsSite (open_ws env uid conn x).1
  unfolding open_ws
  open_ws-IsSite uid none x w = w
  open_ws-IsSite uid (some conn) x w = elim (Bool-cases (str_eq uid "")) [
    | inl q ↦ rw q w
    | inr q ↦ rw q (open_found-IsSite uid conn (find_session x.server uid) x w)
  ]

pub close_ws-IsSite : (p conn : ℕ) (x : Site) → IsSite x → IsSite (close_ws p conn x)
unfolding close_ws
close_ws-IsSite p conn x (ws, n) = elim (Bool-cases (same_conn (x.server.heap.cell p).conn conn)) [
  | inl q ↦ rw q (AreRooms-heap x.server.rooms (SamePlayers-update x.server.heap p _ refl) ws, n)
  | inr q ↦ rw q (ws, n)
]
