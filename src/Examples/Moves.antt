-- ===== src/Examples/Moves.antt =====
-- What the theorems of Room/Reassign and Room/Restore say of the room "r", whose node has failed.
use pokemon_simulator_server.Base.{
  ℕ, ◌<◌, ◌≡◌, ap, subst, refl, String, str_eq, string_eq, true, false, none, some, [], ◌∷◌, pos,
  Map, lookup, insert, arith, if◌then◌else◌, int_order, sort, eq_of_some, sym,
}
use pokemon_simulator_server.Engine.Node.{snapshot}
use pokemon_simulator_server.Engine.Instance.{
  EngineInstance, get_node, get_node_by_pod_index, get_status, count_nodes, count_node, choose,
}
use pokemon_simulator_server.Room.GameRoom.{GameRoom}
use pokemon_simulator_server.Room.Env.{Env, rpc_response, Marshalled, json, unsupported, parsed}
use pokemon_simulator_server.Room.Manager.{Server}
use pokemon_simulator_server.Room.Failover.{pick_healthy_node_for_room, pick_index, healthy_indices}
use pokemon_simulator_server.Room.Invariant.{IsServer}
use pokemon_simulator_server.Room.Reassign.{
  Persisted, move_room, move_to, move_playing, recreate, create_on, settle,
  reassign_running_rooms_from_unavailable_nodes,
}
use pokemon_simulator_server.Room.Reassign.Moves.{Passed}
use pokemon_simulator_server.Room.Reassign.Pass.{Origin, reassign-Origin}
use pokemon_simulator_server.Room.Reassign.Counts.{IsMovedTo, move_room-saved}
use pokemon_simulator_server.Room.Restore.{
  add_player_ids, player_ids, restore_room_snapshot, restore_from_store,
}
use pokemon_simulator_server.Room.Restore.Described.{IsRestored}
use pokemon_simulator_server.Room.Restore.Rooms.{Fits, restore_room_snapshot_lem}
use pokemon_simulator_server.Room.Restore.Start.{restore_from_store_lem}
use pokemon_simulator_server.Store.{
  RoomSnapshot, Codec, loaded, room_key, load_room_snapshot, read_snapshot, decode,
  save_room_snapshot, write_snapshot,
}
use pokemon_simulator_server.Store.Laws.{ReadsBack}
use pokemon_simulator_server.Store.Listing.{read_keys, add_reply, add_loaded, add_snapshot}
use pokemon_simulator_server.Examples.Data.{
  env, engine, two_play, idle_node, full_node, server_with, people,
}
use pokemon_simulator_server.Examples.Stores.{
  memory, memory-IsLawful, battle_r, codec_by_node, codec_r, store_r, store_r-Pages,
}

-- An engine that accepts every room.
abbrev ready_env : Env
ready_env = record env { call_create_room = λ c r i n. rpc_response (pos 0) "" }

-- The engine deletes the snapshot of a room that it destroys.
abbrev wiped : String → Map String String → Map String String
wiped room_id s = []

abbrev failed_engine : EngineInstance
failed_engine = record engine {
  nodes = (pos 0, record full_node { healthy = false }) ∷ (pos 1, idle_node) ∷ [];
}

abbrev playing_r : Server
playing_r = server_with (("r", two_play) ∷ [])

abbrev with_store : Persisted memory
with_store = record { server = playing_r; store = some store_r }

reassign-Origin_example :
    Passed ready_env memory codec_r wiped
      (pos 200)
      failed_engine
      (Origin ready_env memory codec_r wiped (pos 200) failed_engine with_store)
      playing_r
      (reassign_running_rooms_from_unavailable_nodes ready_env memory codec_r wiped
        (pos 200)
        (some failed_engine)
        with_store).0.server
reassign-Origin_example =
    reassign-Origin ready_env memory codec_r wiped (pos 200) failed_engine with_store
      (refl, (refl, tt))

-- The snapshot after the move.
abbrev moved_r : RoomSnapshot
moved_r = record battle_r { node_id = pos 1; server_id = idle_node.server_id; updated_at = pos 200 }

abbrev codec_moved : Codec
codec_moved = codec_by_node battle_r moved_r

text_of : Marshalled → String
text_of (json t) = t
text_of (unsupported err) = ""

moved_r-ReadsBack : ReadsBack codec_moved moved_r
unfolding text_of
moved_r-ReadsBack = record {
  reads_back = λ t q. subst (λ u. codec_moved.unmarshal u ≡ parsed moved_r) (ap text_of q) refl;
}

r_picked :
    pick_healthy_node_for_room ready_env.crc32 (some failed_engine) "r" (pos 0) ≡ some idle_node
unfolding pick_healthy_node_for_room pick_index healthy_indices get_status count_nodes count_node
    snapshot get_node lookup choose sort int_order get_node_by_pod_index
r_picked = refl

r_loaded : load_room_snapshot memory codec_moved "r" store_r ≡ loaded battle_r
unfolding load_room_snapshot read_snapshot decode room_key lookup
r_loaded = refl

resaved_ok : (save_room_snapshot memory codec_moved moved_r (pos 200) []).1 ≡ none
unfolding save_room_snapshot write_snapshot
resaved_ok = refl

r_moved :
    (move_room ready_env memory codec_moved wiped (pos 200) failed_engine "r" two_play with_store).1
    ≡ true
unfolding move_room move_to move_playing recreate create_on settle load_room_snapshot read_snapshot
    decode room_key pick_healthy_node_for_room pick_index healthy_indices get_status count_nodes
    count_node snapshot get_node lookup choose sort int_order get_node_by_pod_index
r_moved = refl

move_room-saved_example :
    let tried =
      move_room ready_env memory codec_moved wiped
        (pos 200)
        failed_engine
        "r"
        two_play
        with_store in
    (lookup "r" tried.0.server.rooms ≡ some (record two_play { node_id = pos 1 }))
    × ((t : Map String String) × (after : RoomSnapshot) × ((tried.0.store ≡ some t)
          × ((load_room_snapshot memory codec_moved "r" t ≡ loaded after)
              × IsMovedTo ready_env memory codec_moved wiped
                  (pos 200)
                  failed_engine
                  idle_node
                  two_play
                  battle_r
                  after)))
move_room-saved_example =
    move_room-saved ready_env memory codec_moved wiped (pos 200) failed_engine idle_node "r"
      two_play battle_r store_r playing_r r_picked refl r_loaded memory-IsLawful moved_r-ReadsBack
      resaved_ok r_moved

battle_r-Fits : Fits battle_r
unfolding player_ids add_player_ids insert
battle_r-Fits = (omega arith, omega arith)

restore_room_snapshot_lem_example :
    let w = restore_room_snapshot battle_r (server_with []) in
    (r : GameRoom) × IsRestored battle_r w r
    × ((k : String) → lookup k w.rooms ≡ (if str_eq "r" k then some r else lookup k []))
    × ((q : ℕ) → q < 3 → w.heap.cell q ≡ people.cell q)
restore_room_snapshot_lem_example = restore_room_snapshot_lem battle_r (server_with [])

abbrev empty_with_store : Persisted memory
empty_with_store = record { server = server_with []; store = some store_r }

r_read : read_keys memory codec_r ("pokemon:room:r" ∷ []) store_r [] ≡ loaded (battle_r ∷ [])
unfolding read_keys add_reply add_loaded add_snapshot decode lookup
r_read = refl

restore_from_store_lem_example :
    (y : Persisted memory) × (restore_from_store ready_env memory codec_r wiped
        (pos 200)
        1
        (some failed_engine)
        (pos 0)
        empty_with_store
      ≡ some (y, none))
    × IsServer y.server
restore_from_store_lem_example =
    restore_from_store_lem ready_env memory codec_r wiped (pos 200) (some failed_engine) (pos 0)
      (("pokemon:room:r" ∷ []) ∷ []) store_r empty_with_store (battle_r ∷ []) store_r-Pages refl
      r_read (battle_r-Fits, tt) (λ e q. rw (sym (eq_of_some q)) (refl, (refl, tt))) tt
