-- ===== src/Cmd.antt =====
-- cmd/server/main.go: what the server does at its start, at its end, and for the debug page of a
-- room's snapshot. HTTP, signals and logging are left out.
use pokemon_simulator_server.Base.{
  ℕ, ◌≡◌, refl, ◌∙◌, String, str_eq, str_eq_iff, true, Option, none, some, [], ℤ, pos, not,
  if◌then◌else◌,
}
use pokemon_simulator_server.Engine.Instance.{EngineInstance}
use pokemon_simulator_server.Engine.Upkeep.{Cluster}
use pokemon_simulator_server.Engine.Health.{shutdown}
use pokemon_simulator_server.Room.Env.{Env}
use pokemon_simulator_server.Room.Heap.{Heap}
use pokemon_simulator_server.Room.Manager.{Server, new_room_manager}
use pokemon_simulator_server.Room.Manager.Closing.{destroy_all_rooms}
use pokemon_simulator_server.Room.Reassign.{Persisted}
use pokemon_simulator_server.Room.Restore.{restore_from_store}
use pokemon_simulator_server.Store.{
  RoomSnapshot, Redis, Codec, StoreError, message, not_found, Loaded, loaded, load_error,
  load_room_snapshot, save_room_snapshot,
}
use pokemon_simulator_server.Store.Laws.{
  IsLawful, ReadsBack, dated, load-save_room_snapshot, save-named,
}

-- The answer of /debug/room_snapshot.
pub data DebugAnswer : Type 0 where
  http_error : ℕ → String → DebugAnswer
  encoded : RoomSnapshot → DebugAnswer

unfoldable pub snapshot_answer : Loaded RoomSnapshot → DebugAnswer
snapshot_answer (loaded snapshot) = encoded snapshot
snapshot_answer (load_error not_found) = http_error 404 "room snapshot not found"
snapshot_answer (load_error (message text)) = http_error 500 "failed to load room snapshot"

module _ (R : Redis) (codec : Codec) where
  -- The handler of /debug/room_snapshot.
  unfoldable pub debug_room_snapshot : String → String → R.State → DebugAnswer
  debug_room_snapshot method room_id s =
      if not (str_eq method "GET")
      then http_error 405 "method not allowed"
      else if str_eq room_id ""
      then http_error 400 "missing room_id"
      else snapshot_answer (load_room_snapshot R codec room_id s)

  -- initRoomManager: all rooms of the store, whatever node they are on. An error is only logged.
  unfoldable pub init_room_manager :
      Env
      → (String → R.State → R.State)
      → ℤ
      → ℕ
      → Option EngineInstance
      → Heap
      → Option R.State
      → Option (Persisted R × Option StoreError)
  init_room_manager env after_destroy now fuel eng heap store =
      restore_from_store env R codec after_destroy now fuel eng (pos 0) (record {
        server = record { manager = new_room_manager; heap = heap; calls = [] };
        store = store;
      })

-- The end of main: the rooms are destroyed while the engine is still connected, then it is shut down.
unfoldable pub graceful_shutdown : Env → Server × Cluster → Server × Cluster
graceful_shutdown env (v, c) = (destroy_all_rooms env (some c.instance_of) v, shutdown env.crc32 c)

-- The debug page shows the snapshot that was saved last for the room, under the conditions of a round trip.
pub debug-save_room_snapshot :
    (R : Redis) (codec : Codec) (snapshot : RoomSnapshot) (now : ℤ) (s : R.State)
    → IsLawful R
    → ReadsBack codec (dated snapshot now)
    → (save_room_snapshot R codec snapshot now s).1 ≡ none
    → debug_room_snapshot R codec "GET" snapshot.room_id
        (save_room_snapshot R codec snapshot now s).0
      ≡ encoded (dated snapshot now)
unfolding debug_room_snapshot snapshot_answer
debug-save_room_snapshot R codec snapshot now s lawful back ok =
    let same : str_eq snapshot.room_id snapshot.room_id ≡ true = (str_eq_iff _ _).1 refl in
    let read =
      (load-save_room_snapshot R codec snapshot now s snapshot.room_id "" lawful back ok).0 in
    let here : load_room_snapshot R codec snapshot.room_id
          (save_room_snapshot R codec snapshot now s).0
        ≡ loaded (dated snapshot now) =
      read ∙ rw same refl in
    rw (save-named R codec snapshot now s ok, here) refl
