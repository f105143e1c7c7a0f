-- ===== src/Handler/Websocket/Reconnect.antt =====
-- internal/handler/websocket.go: what a player finds who comes back, and what his old connection can
-- still do.
use pokemon_simulator_server.Base.{
  ℕ, ◌<◌, ◌≡◌, refl, ◌∙◌, ap, String, str_eq, string_eq, Bool, false, Option, none, some, lookup,
  lookup-insert_self, is_some, nat_eq, nat_eq_iff, arith, Bool-cases, inl, inr,
}
use pokemon_simulator_server.Engine.Instance.{EngineInstance}
use pokemon_simulator_server.Protocol.{Player, GameResponse}
use pokemon_simulator_server.Room.Session.{
  Session, new_session, same_conn, send_response, send_or_drop,
}
use pokemon_simulator_server.Room.Heap.{field-reply}
use pokemon_simulator_server.Room.Env.{Env}
use pokemon_simulator_server.Room.Manager.{Server, RoomManager, find_session, register_session}
use pokemon_simulator_server.Room.Manager.Closing.{clean_up_if_still_offline}
use pokemon_simulator_server.Room.Game.{send_to}
use pokemon_simulator_server.Room.Restore.Players.{cell-allocate, cell-allocate_self}
use pokemon_simulator_server.Handler.Site.{Site}
use pokemon_simulator_server.Handler.Websocket.{
  set_conn, open_new, player_of, resume, take_over, open_found, open_ws, close_ws,
}

-- What a session keeps when its player comes back: all but the connection and the messages.
abbrev pub identity : Session → Player × String
identity s = (s.player, s.room_id)

conn-send_response :
    (marshals : GameResponse → Bool) (s : Session) (m : GameResponse)
    → (send_response marshals s m).conn ≡ s.conn
unfolding send_response
conn-send_response marshals s m = ground arith

conn-send_or_drop : (s : Session) (m : GameResponse) → (send_or_drop s m).conn ≡ s.conn
unfolding send_or_drop
conn-send_or_drop s m = ground arith

identity-send_response :
    (marshals : GameResponse → Bool) (s : Session) (m : GameResponse)
    → identity (send_response marshals s m) ≡ identity s
unfolding send_response
identity-send_response marshals s m = ground arith

identity-send_or_drop : (s : Session) (m : GameResponse) → identity (send_or_drop s m) ≡ identity s
unfolding send_or_drop
identity-send_or_drop s m = ground arith

-- The session p of y is on the connection; rooms and table are those of v, and p is who he was in v.
pub record IsOn (v : Server) (p conn : ℕ) (w : Server) : Type 0 where
  pub on : (w.heap.cell p).conn ≡ some conn
  pub same_manager : w.manager ≡ v.manager
  pub same_identity : identity (w.heap.cell p) ≡ identity (v.heap.cell p)

module _ (env : Env) where
  send_to-IsOn :
      (v w : Server) (p conn : ℕ) (m : GameResponse)
      → IsOn v p conn w
      → IsOn v p conn (send_to env p m w)
  unfolding send_to
  send_to-IsOn v w p conn m o = record {
    on =
        field-reply (λ s. s.conn) conn-send_response conn-send_or_drop env.marshals p m w.heap p
        ∙ o.on;
    same_manager = o.same_manager;
    same_identity =
        field-reply identity identity-send_response identity-send_or_drop env.marshals p m w.heap p
        ∙ o.same_identity;
  }

  resume-IsOn :
      (v : Server) (p conn : ℕ) (x : Site)
      → IsOn v p conn x.server
      → IsOn v p conn (resume env p x).server
  unfolding resume
  resume-IsOn v p conn x o = elim (Bool-cases (str_eq (x.server.heap.cell p).room_id "")) [
    | inl q ↦ rw q (send_to-IsOn v x.server p conn _ o)
    | inr q ↦ elim (Bool-cases (is_some (lookup (x.server.heap.cell p).room_id x.server.rooms))) [
      | inl r ↦ rw (q, r) o
      | inr r ↦ rw (q, r) (send_to-IsOn v x.server p conn _ o)
    ]
  ]

  set_conn-IsOn : (v : Server) (p conn : ℕ) → IsOn v p conn (set_conn v p (some conn))
  set_conn-IsOn v p conn =
      let here = (nat_eq_iff p p).1 refl in
      record { on = rw here refl; same_manager = refl; same_identity = rw here refl }

  take_over-IsOn : (p conn : ℕ) (x : Site) → IsOn x.server p conn (take_over env p conn x).server
  unfolding take_over
  take_over-IsOn p conn x = resume-IsOn x.server p conn _ (set_conn-IsOn x.server p conn)

  -- A player who is back is not cleaned up.
  clean_up-online :
      (eng : Option EngineInstance) (uid : String) (p conn : ℕ) (v : Server)
      → find_session v uid ≡ some p
      → (v.heap.cell p).conn ≡ some conn
      → clean_up_if_still_offline env eng uid v ≡ v
  unfolding clean_up_if_still_offline find_session
  clean_up-online eng uid p conn v found on = rw (found, clean_up_if_still_offline, on) refl

  -- An old connection that ends does not touch the server.
  close_ws-other :
      (p conn old : ℕ) (x : Site)
      → (x.server.heap.cell p).conn ≡ some conn
      → nat_eq conn old ≡ false
      → (close_ws p old x).server ≡ x.server
  unfolding close_ws same_conn
  close_ws-other p conn old x on other = rw (on, close_ws, same_conn, other) refl

  -- A player who connects again, on whatever connection his session was before, gets his own session
  -- back: it is on the new connection, its player and room, all rooms and the table of sessions are as
  -- they were. After that, neither the clean-up that was started when he went offline nor the end of
  -- another connection of his changes the server.
  pub open_ws-returning :
      (uid : String) (p conn : ℕ) (x : Site)
      → str_eq uid "" ≡ false
      → find_session x.server uid ≡ some p
      → let (served, y) = open_ws env uid (some conn) x in
        (served ≡ some p)
        × IsOn x.server p conn y.server
        × ((eng : Option EngineInstance)
            → clean_up_if_still_offline env eng uid y.server ≡ y.server)
        × ((old : ℕ) → nat_eq conn old ≡ false → (close_ws p old y).server ≡ y.server)
  unfolding open_ws open_found find_session
  open_ws-returning uid p conn x named found =
      let o = take_over-IsOn p conn x in
      let still : find_session (take_over env p conn x).server uid ≡ some p =
        ap (λ (m : RoomManager). lookup uid m.all_sessions) o.same_manager ∙ found in
      rw (named, found, open_found)
        (
          refl,
          o,
          (λ eng. clean_up-online eng uid p conn (take_over env p conn x).server still o.on),
          (λ old other. close_ws-other p conn old (take_over env p conn x) o.on other),
        )

  -- A player who connects for the first time gets a new session under his id, on this connection and in
  -- no room; no room and no other session changes.
  pub open_ws-new :
      (uid : String) (conn : ℕ) (x : Site)
      → str_eq uid "" ≡ false
      → find_session x.server uid ≡ none
      → let (served, y) = open_ws env uid (some conn) x in
        let p = x.server.heap.next in
        (served ≡ some p)
        × (find_session y.server uid ≡ some p)
        × (y.server.heap.cell p ≡ new_session (player_of uid) (some conn))
        × (y.server.rooms ≡ x.server.rooms)
        × ((q : ℕ) → q < p → y.server.heap.cell q ≡ x.server.heap.cell q)
  unfolding open_ws open_found open_new find_session register_session
  open_ws-new uid conn x named found =
      rw (named, found, open_found)
        (
          refl,
          lookup-insert_self uid x.server.heap.next x.server.all_sessions,
          cell-allocate_self x.server.heap (new_session (player_of uid) (some conn)),
          refl,
          cell-allocate x.server.heap (new_session (player_of uid) (some conn)),
        )
