-- ===== src/Room/Reassign.antt =====
-- internal/room/manager.go: ReassignRunningRoomsFromUnavailableNodes, one pass with the engine as it
-- is. The snapshots are those of internal/store, over the Redis commands `R`; `none` for their state
-- is a nil Store. `after_destroy` is what the C++ engine does to Redis when it destroys a room.
pub mod Moves
pub mod Reasons
pub mod Pass
pub mod Counts
use pokemon_simulator_server.Base.{
  ℕ, zero, suc, ◌+◌, String, str_eq, Bool, true, false, ◌&&◌, Option, none, some, List, [], ◌∷◌,
  ◌++◌, ℤ, pos, int_eq, integer_eq, string_eq, Map, lookup, insert, is_some, not, if◌then◌else◌,
}
use pokemon_simulator_server.Engine.Node.{EngineNode, EngineNodeStatus}
use pokemon_simulator_server.Engine.Instance.{EngineInstance, get_status}
use pokemon_simulator_server.Room.GameRoom.{GameRoom, RoomStatus, is_playing, int_of_status}
use pokemon_simulator_server.Room.Env.{
  Env, EngineCall, create_room_call, Marshalled, json, unsupported, RpcOutcome,
}
use pokemon_simulator_server.Room.Manager.{Server, set_rooms}
use pokemon_simulator_server.Room.Manager.Closing.{is_ok, send_destroy_room_request}
use pokemon_simulator_server.Room.Failover.{pick_healthy_node_for_room}
use pokemon_simulator_server.Store.{
  RoomSnapshot, Redis, Codec, Loaded, loaded, load_error, load_room_snapshot, save_room_snapshot,
}

-- The server beside what Redis holds.
pub record Persisted (R : Redis) : Type 0 where
  pub server : Server
  pub store : Option R.State

-- The maps `healthy` and `podServerIDs`, filled by the loop over status.Nodes.
pub record PodMaps : Type 0 where
  pub healthy : List ℤ
  pub server_ids : Map ℤ String

unfoldable pub note_pod : EngineNodeStatus → PodMaps → PodMaps
note_pod s m =
    let noted = record m { server_ids = insert s.pod_index s.server_id m.server_ids } in
    if s.healthy then record noted { healthy = s.pod_index ∷ m.healthy } else noted

unfoldable pub pod_maps : List EngineNodeStatus → PodMaps → PodMaps
pod_maps [] m = m
pod_maps (s ∷ ss) m = pod_maps ss (note_pod s m)

unfoldable pub is_member : ℤ → List ℤ → Bool
is_member i [] = false
is_member i (j ∷ js) = if int_eq j i then true else is_member i js

-- The snapshot was written for another server than the pod's present one.
unfoldable pub is_stale : Loaded RoomSnapshot → Option String → Bool
is_stale (load_error err) sid = false
is_stale (loaded snapshot) none = false
is_stale (loaded snapshot) (some sid) =
    not (str_eq snapshot.server_id "") && not (str_eq sid snapshot.server_id)

-- The snapshot that is saved for a moved room.
abbrev pub updated_snapshot : GameRoom → EngineNode → RoomSnapshot → ℤ → RoomSnapshot
updated_snapshot r n snapshot now = record {
  room_id = r.id;
  status = int_of_status r.status;
  node_id = n.pod_index;
  server_id = n.server_id;
  players = snapshot.players;
  ready_players = snapshot.ready_players;
  selected_pokemon = snapshot.selected_pokemon;
  updated_at = now;
}

abbrev pub called : Server → List EngineCall → Server
called v calls = record v { calls = v.calls ++ calls }

-- r.NodeID = newNode.PodIndex, for the room under this key
abbrev pub put_node_id : Server → String → GameRoom → ℤ → Server
put_node_id v key r i = set_rooms v (insert key (record r { node_id = i }) v.rooms)

-- Whether the room was moved, which the pass counts.
abbrev pub count_result : Bool → ℕ × ℕ → ℕ × ℕ
count_result true (moved, skipped) = (moved + 1, skipped)
count_result false (moved, skipped) = (moved, skipped + 1)

module _ (env : Env) (R : Redis) (codec : Codec) (after_destroy : String → R.State → R.State)
    (now : ℤ) where
  -- The test of the first loop: whether the room is to be moved.
  unfoldable pub is_target : PodMaps → Option R.State → GameRoom → Bool
  is_target m store r = if not (is_member r.node_id m.healthy) then true else elim store [
    | none ↦ false
    | some s ↦ is_stale (load_room_snapshot R codec r.id s) (lookup r.node_id m.server_ids)
  ]

  unfoldable pub target_rooms : PodMaps → Option R.State → Map String GameRoom → Map String GameRoom
  target_rooms m store [] = []
  target_rooms m store (e ∷ rooms) =
      let rest = target_rooms m store rooms in if is_target m store e.1 then e ∷ rest else rest

  module _ (e : EngineInstance) where
    -- What Redis holds once the room is recreated: saved, changed by the engine, saved again.
    unfoldable pub resaved : RoomSnapshot → R.State → R.State
    resaved updated s =
        let first = (save_room_snapshot R codec updated now s).0 in
        (save_room_snapshot R codec updated now (after_destroy updated.room_id first)).0

    -- The new node has the room.
    unfoldable pub settle :
        EngineNode → String → GameRoom → RoomSnapshot → R.State → Server → Persisted R
    settle n key r snapshot s v = record {
      server =
          called (put_node_id v key r n.pod_index)
            (send_destroy_room_request env (some e) r.id r.node_id);
      store = some (resaved (updated_snapshot r n snapshot now) s);
    }

    unfoldable pub create_on :
        EngineNode
        → String
        → GameRoom
        → RoomSnapshot
        → Marshalled
        → R.State
        → Server
        → Persisted R × Bool
    create_on n key r snapshot (unsupported err) s v =
        (record { server = v; store = some s }, false)
    create_on n key r snapshot (json payload) s v =
        let v' = called v (create_room_call n.client r.id payload ∷ []) in
        if is_ok (env.call_create_room n.client r.id payload 1)
        then (settle n key r snapshot s v', true)
        else (record { server = v'; store = some s }, false)

    unfoldable pub recreate :
        EngineNode → String → GameRoom → Loaded RoomSnapshot → R.State → Server → Persisted R × Bool
    recreate n key r (load_error err) s v = (record { server = v; store = some s }, false)
    recreate n key r (loaded snapshot) s v = create_on n key r snapshot (codec.marshal snapshot) s v

    unfoldable pub move_playing :
        EngineNode → String → GameRoom → Option R.State → Server → Persisted R × Bool
    move_playing n key r none v = (record { server = v; store = none }, false)
    move_playing n key r (some s) v = recreate n key r (load_room_snapshot R codec r.id s) s v

    unfoldable pub move_to :
        Option EngineNode → String → GameRoom → Persisted R → Persisted R × Bool
    move_to none key r x = (x, false)
    move_to (some n) key r x =
        if is_playing r.status then move_playing n key r x.store x.server else (x, true)

    -- One round of the second loop.
    unfoldable pub move_room : String → GameRoom → Persisted R → Persisted R × Bool
    move_room key r x =
        move_to (pick_healthy_node_for_room env.crc32 (some e) r.id r.node_id) key r x

    unfoldable pub move_rooms : Map String GameRoom → Persisted R × (ℕ × ℕ) → Persisted R × (ℕ × ℕ)
    move_rooms [] (x, n) = (x, n)
    move_rooms ((key, r) ∷ rooms) (x, n) =
        let tried = move_room key r x in move_rooms rooms (tried.0, count_result tried.1 n)

  -- The pass, by the list of the healthy nodes.
  unfoldable pub reassign_with :
      EngineInstance → List ℤ → PodMaps → Persisted R → Persisted R × (ℕ × ℕ)
  reassign_with e [] m x = (x, (0, 0))
  reassign_with e (i ∷ is) m x = move_rooms e (target_rooms m x.store x.server.rooms) (x, (0, 0))

  -- ReassignRunningRoomsFromUnavailableNodes, with the numbers of rooms moved and skipped
  unfoldable pub reassign_running_rooms_from_unavailable_nodes :
      Option EngineInstance → Persisted R → Persisted R × (ℕ × ℕ)
  reassign_running_rooms_from_unavailable_nodes none x = (x, (0, 0))
  reassign_running_rooms_from_unavailable_nodes (some e) x =
      let m = pod_maps (get_status e).nodes (record { healthy = []; server_ids = [] }) in
      reassign_with e m.healthy m x
