-- ===== src/Room/Restore/Rooms.antt =====
-- internal/room/manager.go: the room that restoreRoomSnapshot makes, and the rooms that are restored
-- one after the other.
use pokemon_simulator_server.Base.{
  ℕ, ◌≤◌, ◌<◌, ◌≡◌, refl, sym, ◌∙◌, ap, subst, String, true, false, some, All-Memᴰ, All-keys-lookup,
  List, [], ◌∷◌, ℤ, string_eq, str_eq, Map, keys, lookup, length, is_some, All, All-imp,
  lookup-insert, arith, Bool-cases, inl, inr, if◌then◌else◌,
}
use pokemon_simulator_server.Room.Session.{Session}
use pokemon_simulator_server.Room.GameRoom.{GameRoom, int_of_status}
use pokemon_simulator_server.Room.Manager.{Server}
use pokemon_simulator_server.Room.Invariant.{
  Extends, IsRoom, IsServer, AreRooms, AreRooms-Extends, AreRooms-insert,
}
use pokemon_simulator_server.Room.Restore.{
  restore_players, bare_room, player_ids, other_node, restore_room_snapshot, restore_round,
  restore_snapshots,
}
use pokemon_simulator_server.Room.Restore.Players.{
  Restored, restore_players-Restored, restore_players-listed,
}
use pokemon_simulator_server.Room.Restore.Named.{
  Present, Listed, Listed-keys, keys-Listed, Names, player_ids-Present, player_ids-Names,
  restore_players-only,
}
use pokemon_simulator_server.Room.Restore.Described.{
  IsRestored, Revived-IsRevived, restored-FlagOf, int_of-status_of_int,
}
use pokemon_simulator_server.Store.{RoomSnapshot}

-- The snapshot names one or two players.
abbrev pub Fits : RoomSnapshot → Type 0
Fits snapshot =
    (1 ≤ length (keys (player_ids snapshot))) × (length (keys (player_ids snapshot)) ≤ 2)

module _ (snapshot : RoomSnapshot) (v : Server) where
  abbrev made : GameRoom × Server
  made = restore_players snapshot (keys (player_ids snapshot)) (bare_room snapshot, v)

  made-Restored : Restored snapshot v made
  unfolding lookup
  made-Restored =
      restore_players-Restored snapshot v (keys (player_ids snapshot)) (bare_room snapshot, v)
        (record {
          bare = refl;
          flagged = refl;
          revived = tt;
          flags = tt;
          registered = λ k. inl refl;
          same_rooms = refl;
          cells = λ q b. refl;
          grown = omega arith;
        })

  -- The ids that are collected are listed in the room.
  made-Present :
      (ids : List String)
      → All (Present (player_ids snapshot)) ids
      → All (Present made.0.sessions) ids
  made-Present ids = All-imp ids (λ k (present : Present (player_ids snapshot) k). elim present [
    | inl empty ↦ inl empty
    | inr there ↦ inr (
        All-Memᴰ (Listed made.0.sessions) (keys (player_ids snapshot))
          (restore_players-listed snapshot (keys (player_ids snapshot)) (bare_room snapshot, v)).0
          (keys-Listed (player_ids snapshot) k there))
  ])

  made-Names : All (λ k. (str_eq k "" ≡ false) × Names snapshot k) (keys made.0.sessions)
  unfolding lookup
  made-Names =
      All-imp (keys made.0.sessions)
        (λ k (p, q).
          player_ids-Names snapshot k
            (elim (restore_players-only snapshot (keys (player_ids snapshot))
              (bare_room snapshot, v) k (rw q refl)) [
                | inl there ↦ Listed-keys (player_ids snapshot) k there
                | inr nothing ↦ absurd (cc nothing)
              ]))
        (All-keys-lookup made.0.sessions)

  -- Restoring a snapshot makes the room that it describes: its id, status and node; every player that it
  -- names in any of its fields, and no others, each with an allocated session that the table lists and that
  -- has his id, the room's id, no connection and his team; and each ready flag, false where none is saved.
  -- Every other room and every session that was there is as it was.
  pub restore_room_snapshot_lem :
      let w = restore_room_snapshot snapshot v in
      (r : GameRoom) × IsRestored snapshot w r
      × ((k : String)
          → lookup k w.rooms ≡ (if str_eq snapshot.room_id k then some r else lookup k v.rooms))
      × ((q : ℕ) → q < v.heap.next → w.heap.cell q ≡ v.heap.cell q)
  unfolding restore_room_snapshot
  restore_room_snapshot_lem =
      let done = made-Restored in
      let id : made.0.id ≡ snapshot.room_id = ap (λ (r : GameRoom). r.id) done.bare in
      (
        made.0,
        record {
          id = id;
          status =
              ap (λ (r : GameRoom). int_of_status r.status) done.bare
              ∙ int_of-status_of_int snapshot.status;
          known_status = ap (λ (r : GameRoom). r.status) done.bare;
          node_id = ap (λ (r : GameRoom). r.node_id) done.bare;
          all_players = made-Present snapshot.players (player_ids-Present snapshot).0;
          all_ready = made-Present (keys snapshot.ready_players) (player_ids-Present snapshot).1;
          all_teams = made-Present (keys snapshot.selected_pokemon) (player_ids-Present snapshot).2;
          no_others = made-Names;
          revived = All-imp made.0.sessions (Revived-IsRevived snapshot made.1.heap) done.revived;
          registered = done.registered;
          flagged = done.flagged;
          flags = All-imp made.0.ready_players (restored-FlagOf snapshot) done.flags;
        },
        (λ k. lookup-insert made.0.id k made.0 made.1.rooms ∙ rw (id, done.same_rooms) refl),
        done.cells,
      )

  found-length : (k : String) (m : Map String ℕ) → is_some (lookup k m) ≡ true → 1 ≤ length m
  unfolding lookup
  found-length k [] h = absurd (cc h)
  found-length k (e ∷ m) h = omega arith

  first-found :
      (ids : List String) (m : Map String ℕ)
      → 1 ≤ length ids
      → All (λ k. is_some (lookup k m) ≡ true) ids
      → 1 ≤ length m
  first-found [] m one h = absurd (omega (arith, one))
  first-found (k ∷ ids) m one h = found-length k m h.0

  made-IsRoom : Fits snapshot → IsRoom made.1.heap (made.0.id, made.0)
  made-IsRoom (one, two) =
      let done = made-Restored in
      let (everyone, no_more) =
        restore_players-listed snapshot (keys (player_ids snapshot)) (bare_room snapshot, v) in
      record {
        named = refl;
        flagged = done.flagged;
        occupied = first-found (keys (player_ids snapshot)) made.0.sessions one everyone;
        capped = omega (arith, no_more, two);
        players =
            All-imp made.0.sessions (λ (id, p) (e, b). (ap (λ (s : Session). s.player.id) e, b))
              done.revived;
      }

  made-Extends : Extends v.heap made.1.heap
  made-Extends =
      let done = made-Restored in
      record { at = λ q b. ap (λ (s : Session). s.player) (done.cells q b); grown = done.grown }

  -- Restoring a snapshot of one or two players keeps every room well formed.
  pub restore_room_snapshot-IsServer :
      Fits snapshot → IsServer v → IsServer (restore_room_snapshot snapshot v)
  unfolding restore_room_snapshot
  restore_room_snapshot-IsServer fits ws =
      let done = made-Restored in
      AreRooms-insert made.1.heap made.1.rooms made.0.id made.0 (made-IsRoom fits) (
        subst (AreRooms made.1.heap) (sym done.same_rooms)
          (AreRooms-Extends v.rooms made-Extends ws))

restore_round-IsServer :
    (node_id : ℤ) (snapshot : RoomSnapshot) (v : Server)
    → Fits snapshot
    → IsServer v
    → IsServer (restore_round node_id snapshot v)
unfolding restore_round
restore_round-IsServer node_id snapshot v fits ws = elim (Bool-cases (str_eq snapshot.room_id "")) [
  | inl q ↦ rw q ws
  | inr q ↦ elim (Bool-cases (other_node node_id snapshot)) [
    | inl o ↦ rw (q, o) ws
    | inr o ↦ rw (q, o) (restore_room_snapshot-IsServer snapshot v fits ws)
  ]
]

-- Restoring snapshots of one or two players each keeps every room well formed.
pub restore_snapshots-IsServer :
    (node_id : ℤ) (snapshots : List RoomSnapshot) (v : Server)
    → All Fits snapshots
    → IsServer v
    → IsServer (restore_snapshots node_id snapshots v)
unfolding restore_snapshots
restore_snapshots-IsServer node_id [] v fits ws = ws
restore_snapshots-IsServer node_id (snapshot ∷ rest) v fits ws =
    restore_snapshots-IsServer node_id rest (restore_round node_id snapshot v) fits.1
      (restore_round-IsServer node_id snapshot v fits.0 ws)
