-- ===== src/Room/Restore.antt =====
-- internal/room/manager.go: RestoreFromStore. A restored player's session is a new cell of the heap.
pub mod Copies
pub mod Players
pub mod Named
pub mod Described
pub mod Rooms
pub mod Start
use pokemon_simulator_server.Base.{
  ℕ, zero, suc, ◌+◌, String, str_append, str_eq, Bool, true, false, ◌&&◌, Option, none, some, List,
  [], ◌∷◌, map, ℤ, pos, int_eq, int_lt, string_eq, Map, keys, lookup, insert, not, nat_eq,
  if◌then◌else◌,
}
use pokemon_simulator_server.Engine.Instance.{EngineInstance}
use pokemon_simulator_server.Protocol.{Player, Value, JsonObject}
use pokemon_simulator_server.Room.Session.{Session, new_session}
use pokemon_simulator_server.Room.Heap.{Heap, update}
use pokemon_simulator_server.Room.GameRoom.{GameRoom, RoomStatus, status_of_int}
use pokemon_simulator_server.Room.Env.{Env}
use pokemon_simulator_server.Room.Manager.{Server, set_rooms}
use pokemon_simulator_server.Room.Reassign.{
  Persisted, reassign_running_rooms_from_unavailable_nodes,
}
use pokemon_simulator_server.Store.{
  RoomSnapshot, Redis, Codec, StoreError, Loaded, loaded, load_error,
}
use pokemon_simulator_server.Store.Listing.{list_room_snapshots}

-- &Session{...}: the cell that is not used yet.
abbrev pub allocate : Heap → Session → Heap
allocate h s = record (update h h.next s) { next = h.next + 1 }

-- The loop of copySelectedPokemon over the entries of one Pokemon.
unfoldable pub copy_pokemon : JsonObject → JsonObject
copy_pokemon [] = []
copy_pokemon ((key, value) ∷ pokemon) = insert key value (copy_pokemon pokemon)

-- copySelectedPokemon
unfoldable pub copy_selected_pokemon : List JsonObject → List JsonObject
copy_selected_pokemon [] = []
copy_selected_pokemon (pokemon ∷ team) = copy_pokemon pokemon ∷ copy_selected_pokemon team

-- Ids put in a set, empty ones left out.
unfoldable pub add_player_ids : List String → Map {0, 0} String Unit → Map {0, 0} String Unit
add_player_ids [] ids = ids
add_player_ids (id ∷ rest) ids =
    add_player_ids rest (if str_eq id "" then ids else insert id tt ids)

-- The players that a snapshot names in any of its fields.
unfoldable pub player_ids : RoomSnapshot → Map {0, 0} String Unit
player_ids snapshot =
    add_player_ids (keys snapshot.selected_pokemon)
      (add_player_ids (keys snapshot.ready_players) (add_player_ids snapshot.players []))

-- snapshot.SelectedPokemon[playerID], copied, or nil
unfoldable pub restored_team : Option (List JsonObject) → List JsonObject
restored_team none = []
restored_team (some team) = copy_selected_pokemon team

abbrev pub restored_session : RoomSnapshot → String → Session
restored_session snapshot id = record (new_session (record { id = id; username = "" }) none) {
  room_id = snapshot.room_id;
  selected_pokemon = restored_team (lookup id snapshot.selected_pokemon);
}

-- snapshot.ReadyPlayers[playerID], false for a missing key
unfoldable pub flag_or_false : Option Bool → Bool
flag_or_false none = false
flag_or_false (some ready) = ready

abbrev pub restored_flag : RoomSnapshot → String → Bool
restored_flag snapshot id = flag_or_false (lookup id snapshot.ready_players)

-- One round of the loop over the players.
unfoldable pub restore_player : RoomSnapshot → String → GameRoom × Server → GameRoom × Server
restore_player snapshot id (r, v) =
    let p = v.heap.next in
    (
      record r {
        sessions = insert id p r.sessions;
        ready_players = insert id (restored_flag snapshot id) r.ready_players;
      },
      record v {
        manager = record v.manager { all_sessions = insert id p v.all_sessions };
        heap = allocate v.heap (restored_session snapshot id);
      },
    )

unfoldable pub restore_players : RoomSnapshot → List String → GameRoom × Server → GameRoom × Server
restore_players snapshot [] x = x
restore_players snapshot (id ∷ ids) x = restore_players snapshot ids (restore_player snapshot id x)

-- The room before its players are restored.
abbrev pub bare_room : RoomSnapshot → GameRoom
bare_room snapshot = record {
  id = snapshot.room_id;
  sessions = [];
  status = status_of_int snapshot.status;
  node_id = snapshot.node_id;
  ready_players = [];
}

-- restoreRoomSnapshot
unfoldable pub restore_room_snapshot : RoomSnapshot → Server → Server
restore_room_snapshot snapshot v =
    let (r, w) = restore_players snapshot (keys (player_ids snapshot)) (bare_room snapshot, v) in
    set_rooms w (insert r.id r w.rooms)

-- nodeID > 0 && snapshot.NodeID != nodeID
abbrev pub other_node : ℤ → RoomSnapshot → Bool
other_node node_id snapshot = int_lt (pos 0) node_id && not (int_eq snapshot.node_id node_id)

-- One round of the loop over the snapshots.
unfoldable pub restore_round : ℤ → RoomSnapshot → Server → Server
restore_round node_id snapshot v =
    if str_eq snapshot.room_id ""
    then v
    else if other_node node_id snapshot
    then v
    else restore_room_snapshot snapshot v

unfoldable pub restore_snapshots : ℤ → List RoomSnapshot → Server → Server
restore_snapshots node_id [] v = v
restore_snapshots node_id (snapshot ∷ rest) v =
    restore_snapshots node_id rest (restore_round node_id snapshot v)

module _ (env : Env) (R : Redis) (codec : Codec) (after_destroy : String → R.State → R.State)
    (now : ℤ) where
  unfoldable pub restore_listed :
      Option EngineInstance
      → ℤ
      → Loaded (List RoomSnapshot)
      → Persisted R
      → Persisted R × Option StoreError
  restore_listed eng node_id (load_error err) x = (x, some err)
  restore_listed eng node_id (loaded snapshots) x = (
    (reassign_running_rooms_from_unavailable_nodes env R codec after_destroy now eng
        (record x { server = restore_snapshots node_id snapshots x.server })).0,
    none,
  )

  unfoldable pub restore_stored :
      ℕ
      → Option EngineInstance
      → ℤ
      → Option R.State
      → Persisted R
      → Option (Persisted R × Option StoreError)
  restore_stored fuel eng node_id none x = some (x, none)
  restore_stored fuel eng node_id (some s) x = elim (list_room_snapshots R codec fuel s) [
    | none ↦ none
    | some listed ↦ some (restore_listed eng node_id listed x)
  ]

  -- RestoreFromStore, whose error wraps the given one. The listing runs on a fuel of pages; `none`
  -- is a listing that has not come to its end by then.
  unfoldable pub restore_from_store :
      ℕ → Option EngineInstance → ℤ → Persisted R → Option (Persisted R × Option StoreError)
  restore_from_store fuel eng node_id x = restore_stored fuel eng node_id x.store x
