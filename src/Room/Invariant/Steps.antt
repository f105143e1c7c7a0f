-- ===== src/Room/Invariant/Steps.antt =====
-- internal/room: the operations as steps that interleave, the goroutines of StartGame among them.
-- The engine, its answers and all else that is outside of the repository may be another at each step,
-- since they change on their own. A session is allocated when a player connects for the first time or
-- is restored; `connected` gives one its connection.
use pokemon_simulator_server.Base.{
  ℕ, ◌<◌, ◌≡◌, refl, sym, ap, subst, arith, none_ne_some, eq_of_some, ℤ, All, String, List, ◌∷◌,
  ◌++◌, Option, some, none, Option-cases, inl, inr, lookup, string_eq,
}
use pokemon_simulator_server.Engine.Node.{EngineNode}
use pokemon_simulator_server.Engine.Instance.{EngineInstance}
use pokemon_simulator_server.Protocol.{GameResponse}
use pokemon_simulator_server.Room.Session.{Session, receive}
use pokemon_simulator_server.Room.Heap.{update}
use pokemon_simulator_server.Room.Env.{Env}
use pokemon_simulator_server.Room.Manager.{
  Server, create_room, join_room, register_session, sync_room_state,
}
use pokemon_simulator_server.Room.Manager.Closing.{
  delete_room, leave_room, destroy_all_rooms, clean_up_if_still_offline,
}
use pokemon_simulator_server.Room.Game.{StartTask, send_to, run_start_task, start_game_for_session}
use pokemon_simulator_server.Room.Game.Select.{handle_select_pokemon_and_persist}
use pokemon_simulator_server.Room.Game.Action.{handle_battle_action}
use pokemon_simulator_server.Room.Match.{match_players, create_room-SamePlayers}
use pokemon_simulator_server.Room.Restore.{allocate, restore_room_snapshot}
use pokemon_simulator_server.Room.Restore.Players.{cell-allocate}
use pokemon_simulator_server.Room.Restore.Rooms.{Fits, restore_room_snapshot-IsServer}
use pokemon_simulator_server.Room.Reassign.{reassign_running_rooms_from_unavailable_nodes}
use pokemon_simulator_server.Room.Reassign.Pass.{reassign-IsServer}
use pokemon_simulator_server.Store.{RoomSnapshot, Redis, Codec}
use pokemon_simulator_server.Room.Invariant.{
  IsServer, AreRooms-heap, AreRooms-Extends, SamePlayers-update, SamePlayers-trans,
  SamePlayers-reply, SamePlayers-broadcast,
}
use pokemon_simulator_server.Room.Invariant.Sends.{
  OnlySends-IsServer, send_to-OnlySends, handle_battle_action-OnlySends,
}
use pokemon_simulator_server.Room.Invariant.Enter.{create_room-IsServer, join_room-IsServer}
use pokemon_simulator_server.Room.Invariant.Leave.{
  delete_room-IsServer, leave_room-IsServer, destroy_all_rooms-IsServer,
  clean_up_if_still_offline-IsServer,
}
use pokemon_simulator_server.Room.Invariant.Play.{
  run_start_task-IsServer, start_game_for_session-IsServer,
}
use pokemon_simulator_server.Room.Invariant.Select.{handle_select_pokemon_and_persist-IsServer}

-- The server with the goroutines that were launched and have not run yet.
pub record World : Type 0 where
  pub server : Server
  pub tasks : List StartTask

-- A goroutine that an operation launches joins the others.
abbrev pub launched : Server × Option StartTask → List StartTask → World
launched (v, none) ts = record { server = v; tasks = ts }
launched (v, some t) ts = record { server = v; tasks = t ∷ ts }

abbrev at_server : World → Server → World
at_server w v = record w { server = v }

abbrev set_session : Server → ℕ → Session → Server
set_session v p s = record v { heap = update v.heap p s }

pub data Step (R : Redis) (codec : Codec) : World → World → Type 0 where
  created :
      (env : Env) (draws : List String) (p : ℕ) (w : World) (room_id : String) (v : Server)
      → p < w.server.heap.next
      → create_room env draws p w.server ≡ some (room_id, v)
      → Step R codec w (at_server w v)
  joined :
      (env : Env) (room_id : String) (p : ℕ) (w : World)
      → p < w.server.heap.next
      → Step R codec w (at_server w (join_room env room_id p w.server).0)
  left :
      (env : Env) (eng : Option EngineInstance) (room_id : String) (p : ℕ) (w : World)
      → Step R codec w (at_server w (leave_room env eng room_id p w.server))
  deleted :
      (env : Env) (eng : Option EngineInstance) (room_id : String) (w : World)
      → Step R codec w (at_server w (delete_room env eng room_id w.server))
  cleaned_up :
      (env : Env) (eng : Option EngineInstance) (uid : String) (w : World)
      → Step R codec w (at_server w (clean_up_if_still_offline env eng uid w.server))
  all_destroyed :
      (env : Env) (eng : Option EngineInstance) (w : World)
      → Step R codec w (at_server w (destroy_all_rooms env eng w.server))
  started :
      (env : Env) (e : EngineInstance) (p : ℕ) (w : World)
      → Step R codec w (launched (start_game_for_session env e p w.server) w.tasks)
  selected :
      (env : Env) (e : EngineInstance) (p : ℕ) (raw : String) (w : World)
      → Step R codec w (launched (handle_select_pokemon_and_persist env e p raw w.server) w.tasks)
  task_ran :
      (env : Env) (e : EngineInstance) (before : List StartTask) (t : StartTask)
      (after : List StartTask) (v : Server)
      → Step R codec
          (record { server = v; tasks = before ++ t ∷ after })
          (record { server = run_start_task env e t v; tasks = before ++ after })
  acted :
      (env : Env) (e : EngineInstance) (p : ℕ) (raw : String) (w : World) (v : Server)
      → handle_battle_action env e p raw w.server ≡ some v
      → Step R codec w (at_server w v)
  synced :
      (env : Env) (p : ℕ) (w : World)
      → Step R codec w (at_server w (sync_room_state env p w.server))
  registered :
      (uid : String) (p : ℕ) (w : World)
      → Step R codec w (at_server w (register_session w.server uid p))
  answered :
      (env : Env) (p : ℕ) (m : GameResponse) (w : World)
      → Step R codec w (at_server w (send_to env p m w.server))
  connected :
      (p : ℕ) (conn : Option ℕ) (w : World)
      → Step R codec w
          (at_server w (set_session w.server p (record (w.server.heap.cell p) { conn = conn })))
  pumped :
      (p : ℕ) (w : World)
      → Step R codec w (at_server w (set_session w.server p (receive (w.server.heap.cell p))))
  reassigned :
      (env : Env) (e : EngineInstance) (after_destroy : String → R.State → R.State) (now : ℤ)
      (store : Option R.State) (w : World)
      → All (λ (p : ℤ × EngineNode). p.1.pod_index ≡ p.0) e.nodes
      → Step R codec w (
          at_server w
            (reassign_running_rooms_from_unavailable_nodes env R codec after_destroy now
              (some e)
              (record { server = w.server; store = store })).0.server)
  matched :
      (env : Env) (draws : List String) (p q : ℕ) (w : World) (v : Server)
      → p < w.server.heap.next
      → q < w.server.heap.next
      → match_players env draws p q w.server ≡ some v
      → Step R codec w (at_server w v)
  restored :
      (snapshot : RoomSnapshot) (w : World)
      → Fits snapshot
      → Step R codec w (at_server w (restore_room_snapshot snapshot w.server))
  allocated :
      (s : Session) (w : World)
      → Step R codec w (at_server w (record w.server { heap = allocate w.server.heap s }))

-- What the server comes to from w in any number of steps.
pub data Reach (R : Redis) (codec : Codec) (w : World) : World → Type 0 where
  here : Reach R codec w w
  then : {x y : World} → Reach R codec w x → Step R codec x y → Reach R codec w y

launched-IsServer :
    (s : Server × Option StartTask) (ts : List StartTask)
    → IsServer s.0
    → IsServer (launched s ts).server
launched-IsServer (v, none) ts ws = ws
launched-IsServer (v, some t) ts ws = ws

registered-IsServer :
    (v : Server) (uid : String) (p : ℕ) → IsServer v → IsServer (register_session v uid p)
unfolding register_session
registered-IsServer v uid p ws = ws

module _ (env : Env) where
  pub synced-IsServer : (p : ℕ) (v : Server) → IsServer v → IsServer (sync_room_state env p v)
  unfolding sync_room_state
  synced-IsServer p v ws = elim (Option-cases (lookup (v.heap.cell p).room_id v.rooms)) [
    | inl q ↦
        rw (q, sync_room_state)
          (AreRooms-heap v.rooms (SamePlayers-reply env.marshals p _ v.heap) ws)
    | inr (r, q) ↦
        rw (q, sync_room_state)
          (AreRooms-heap v.rooms
            (SamePlayers-trans (SamePlayers-reply env.marshals p _ v.heap)
              (SamePlayers-broadcast env.marshals _ _ _))
            ws)
  ]

  pub matched-IsServer :
      (draws : List String) (p q : ℕ) (v : Server) {x : Server}
      → p < v.heap.next
      → q < v.heap.next
      → match_players env draws p q v ≡ some x
      → IsServer v
      → IsServer x
  unfolding match_players
  matched-IsServer draws p q v a b e ws = elim (Option-cases (create_room env draws p v)) [
    | inl none_free ↦ absurd (none_ne_some (rw (none_free, match_players) at e))
    | inr ((id, w), made) ↦
        let n = (create_room-SamePlayers env draws p v made).same_next in
        subst IsServer (eq_of_some (rw (made, match_players) at e)) (
          join_room-IsServer env (w.heap.cell p).room_id q w (omega (arith, b, n))
            (create_room-IsServer env draws p v a ws made))
  ]

pub allocated-IsServer :
    (s : Session) (v : Server) → IsServer v → IsServer (record v { heap = allocate v.heap s })
allocated-IsServer s v ws =
    AreRooms-Extends v.rooms
      (record {
        at = λ q b. ap (λ (t : Session). t.player) (cell-allocate v.heap s q b);
        grown = omega arith;
      })
      ws

module _ (R : Redis) (codec : Codec) where
  -- Each step keeps every room well formed.
  Step-IsServer : {w x : World} → Step R codec w x → IsServer w.server → IsServer x.server
  Step-IsServer (created env draws p w room_id v b e) ws =
      create_room-IsServer env draws p w.server b ws e
  Step-IsServer (joined env room_id p w b) ws = join_room-IsServer env room_id p w.server b ws
  Step-IsServer (left env eng room_id p w) ws = leave_room-IsServer env eng room_id p w.server ws
  Step-IsServer (deleted env eng room_id w) ws = delete_room-IsServer env eng room_id w.server ws
  Step-IsServer (cleaned_up env eng uid w) ws =
      clean_up_if_still_offline-IsServer env eng uid w.server ws
  Step-IsServer (all_destroyed env eng w) ws = destroy_all_rooms-IsServer env eng w.server
  Step-IsServer (started env e p w) ws =
      launched-IsServer _ w.tasks (start_game_for_session-IsServer env e p w.server ws)
  Step-IsServer (selected env e p raw w) ws =
      launched-IsServer _ w.tasks
        (handle_select_pokemon_and_persist-IsServer env e p raw w.server ws)
  Step-IsServer (task_ran env e before t after v) ws = run_start_task-IsServer env e t v ws
  Step-IsServer (acted env e p raw w v q) ws =
      OnlySends-IsServer (handle_battle_action-OnlySends env e p raw w.server q) ws
  Step-IsServer (synced env p w) ws = synced-IsServer env p w.server ws
  Step-IsServer (registered uid p w) ws = registered-IsServer w.server uid p ws
  Step-IsServer (answered env p m w) ws = OnlySends-IsServer (send_to-OnlySends env p m w.server) ws
  Step-IsServer (connected p conn w) ws =
      AreRooms-heap w.server.rooms (SamePlayers-update w.server.heap p _ refl) ws
  Step-IsServer (pumped p w) ws =
      AreRooms-heap w.server.rooms (SamePlayers-update w.server.heap p _ refl) ws
  Step-IsServer (reassigned env e after_destroy now store w named) ws =
      reassign-IsServer env R codec after_destroy now (some e)
        (record { server = w.server; store = store }) (λ i q. rw (sym (eq_of_some q)) named) ws
  Step-IsServer (matched env draws p q w v a b e) ws =
      matched-IsServer env draws p q w.server a b e ws
  Step-IsServer (restored snapshot w fits) ws =
      restore_room_snapshot-IsServer snapshot w.server fits ws
  Step-IsServer (allocated s w) ws = allocated-IsServer s w.server ws

  -- Whatever operations, start goroutines, moves of rooms, restorations and connection events interleave,
  -- and whatever the engine and Redis answer, a server whose rooms are well formed (one without rooms is)
  -- comes only to servers whose rooms are: each carries its key as its id, has one or two players, keeps
  -- a ready flag for exactly these players, and lists each of them under the id of that player's
  -- session, which is allocated. The sessions that create, join or are matched are allocated, a restored
  -- snapshot names one or two players, and rooms are moved with each node under its own index.
  pub Reach-IsServer : {w x : World} → Reach R codec w x → IsServer w.server → IsServer x.server
  Reach-IsServer here ws = ws
  Reach-IsServer (then r s) ws = Step-IsServer s (Reach-IsServer r ws)
