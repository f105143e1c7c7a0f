-- ===== src/Room/Reassign/Counts.antt =====
-- internal/room/manager.go: the numbers that ReassignRunningRoomsFromUnavailableNodes returns, and what
-- Redis holds of a room that it has moved.
use pokemon_simulator_server.Base.{
  ◌≡◌, refl, ◌∙◌, String, str_eq, str_eq_iff, Bool, true, false, none, some, List, [], ◌∷◌, ℤ, pos,
  int_eq, if◌then◌else◌, integer_eq, string_eq, lookup, lookup-insert_self, Bool-cases, inl, inr,
}
use pokemon_simulator_server.Engine.Node.{EngineNode}
use pokemon_simulator_server.Engine.Instance.{EngineInstance}
use pokemon_simulator_server.Room.GameRoom.{GameRoom, is_playing, int_of_status}
use pokemon_simulator_server.Room.Env.{Env, Marshalled, json, unsupported}
use pokemon_simulator_server.Room.Manager.{Server}
use pokemon_simulator_server.Room.Manager.Closing.{is_ok}
use pokemon_simulator_server.Room.Failover.{pick_healthy_node_for_room}
use pokemon_simulator_server.Room.Reassign.{
  Persisted, updated_snapshot, resaved, settle, create_on, recreate, move_playing, move_to,
  move_room,
}
use pokemon_simulator_server.Store.{
  RoomSnapshot, Redis, Codec, loaded, load_room_snapshot, save_room_snapshot,
}
use pokemon_simulator_server.Store.Laws.{IsLawful, ReadsBack, dated, load-save_room_snapshot}

if_same : (b : Bool) (z : ℤ) → (if b then z else z) ≡ z
if_same true z = refl
if_same false z = refl

abbrev IsFilled : List ℤ → Type 0
IsFilled [] = ⊥
IsFilled (i ∷ is) = Unit

module _ (env : Env) (R : Redis) (codec : Codec) (after_destroy : String → R.State → R.State)
    (now : ℤ) (e : EngineInstance) where
  -- The room under the key is on the node n, and Redis holds its snapshot with that node.
  abbrev Carried : String → GameRoom → EngineNode → RoomSnapshot → R.State → Persisted R → Type 0
  Carried key r n snapshot s y =
      (lookup key y.server.rooms ≡ some (record r { node_id = n.pod_index }))
      × (y.store
          ≡ some (resaved env R codec after_destroy now e (updated_snapshot r n snapshot now) s))

  create_on-Carried :
      (n : EngineNode) (key : String) (r : GameRoom) (snapshot : RoomSnapshot) (m : Marshalled)
      (s : R.State) (v : Server)
      → (create_on env R codec after_destroy now e n key r snapshot m s v).1 ≡ true
      → Carried key r n snapshot s
          (create_on env R codec after_destroy now e n key r snapshot m s v).0
  unfolding create_on settle
  create_on-Carried n key r snapshot (unsupported err) s v h = absurd (cc h)
  create_on-Carried n key r snapshot (json payload) s v h =
      elim (Bool-cases (is_ok (env.call_create_room n.client r.id payload 1))) [
        | inl q ↦ rw q (lookup-insert_self key (record r { node_id = n.pod_index }) v.rooms, refl)
        | inr q ↦ absurd (cc (rw q at h))
      ]

  move_room-Carried :
      (n : EngineNode) (key : String) (r : GameRoom) (snapshot : RoomSnapshot) (s : R.State)
      (v : Server)
      → pick_healthy_node_for_room env.crc32 (some e) r.id r.node_id ≡ some n
      → is_playing r.status ≡ true
      → load_room_snapshot R codec r.id s ≡ loaded snapshot
      → let tried =
          move_room env R codec after_destroy now e key r (record { server = v; store = some s }) in
        tried.1 ≡ true → Carried key r n snapshot s tried.0
  unfolding move_room move_to move_playing recreate
  move_room-Carried n key r snapshot s v picked play found h =
      let opened = rw (picked, move_to, play, found, recreate) at h in
      rw (picked, move_to, play, found, recreate)
        (create_on-Carried n key r snapshot (codec.marshal snapshot) s v opened)

  -- A snapshot of the room r on the node n, with the players, flags and teams of another.
  pub record IsMovedTo (n : EngineNode) (r : GameRoom) (before after : RoomSnapshot) : Type 0 where
    pub room_id : after.room_id ≡ r.id
    pub status : after.status ≡ int_of_status r.status
    pub node_id : after.node_id ≡ n.pod_index
    pub server_id : after.server_id ≡ n.server_id
    pub players : after.players ≡ before.players
    pub ready_players : after.ready_players ≡ before.ready_players
    pub selected_pokemon : after.selected_pokemon ≡ before.selected_pokemon
    pub updated_at : after.updated_at ≡ now

  -- A running game that was moved is on the new node in memory and in Redis: loading its snapshot gives
  -- the players, flags and teams that it had, with the room's id and status, the new node, that node's
  -- server and the time of the move. This holds
  -- whatever the engine does to Redis when it destroys the old copy, if that happens before the snapshot
  -- is saved again, this saving succeeds, Redis answers by the last write and the JSON reads back.
  pub move_room-saved :
      (n : EngineNode) (key : String) (r : GameRoom) (snapshot : RoomSnapshot) (s : R.State)
      (v : Server)
      → pick_healthy_node_for_room env.crc32 (some e) r.id r.node_id ≡ some n
      → is_playing r.status ≡ true
      → load_room_snapshot R codec r.id s ≡ loaded snapshot
      → IsLawful R
      → let updated = updated_snapshot r n snapshot now in
        let destroyed = after_destroy r.id (save_room_snapshot R codec updated now s).0 in
        let tried =
          move_room env R codec after_destroy now e key r (record { server = v; store = some s }) in
        ReadsBack codec (dated updated now)
        → (save_room_snapshot R codec updated now destroyed).1 ≡ none
        → tried.1 ≡ true
        → (lookup key tried.0.server.rooms ≡ some (record r { node_id = n.pod_index }))
          × ((t : R.State) × (after : RoomSnapshot) × ((tried.0.store ≡ some t)
                × ((load_room_snapshot R codec r.id t ≡ loaded after)
                    × IsMovedTo n r snapshot after)))
  unfolding resaved
  move_room-saved n key r snapshot s v picked play found lawful back ok h =
      let updated = updated_snapshot r n snapshot now in
      let destroyed = after_destroy r.id (save_room_snapshot R codec updated now s).0 in
      let (there, stored) = move_room-Carried n key r snapshot s v picked play found h in
      let same : str_eq r.id r.id ≡ true = (str_eq_iff r.id r.id).1 refl in
      let read = (load-save_room_snapshot R codec updated now destroyed r.id "" lawful back ok).0 in
      (
        there,
        (
          (save_room_snapshot R codec updated now destroyed).0,
          dated updated now,
          (
            stored,
            (
              read ∙ rw same refl,
              record {
                room_id = refl;
                status = refl;
                node_id = refl;
                server_id = refl;
                players = refl;
                ready_players = refl;
                selected_pokemon = refl;
                updated_at = if_same (int_eq now (pos 0)) now;
              },
            ),
          ),
        ),
      )
