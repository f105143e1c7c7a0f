-- ===== src/Room/Invariant/Leave.antt =====
-- internal/room/manager.go: leaving and deleting rooms keep the rooms well formed.
use pokemon_simulator_server.Base.{
  ℕ, ◌≡◌, String, false, arith, string_eq, values, lookup, insert, erase, length, is_some,
  All-erase, All-lookup, length-erase-le, keys-erase, erase-insert, lookup-insert_self, Option,
  Option-cases, nat_eq, not, Bool-cases, inl, inr, str_eq,
}
use pokemon_simulator_server.Engine.Instance.{EngineInstance}
use pokemon_simulator_server.Room.Heap.{Heap}
use pokemon_simulator_server.Room.GameRoom.{GameRoom, finished, is_waiting, is_playing}
use pokemon_simulator_server.Room.Env.{Env}
use pokemon_simulator_server.Room.Manager.{Server, player_id, set_rooms, departed}
use pokemon_simulator_server.Room.Manager.Closing.{
  send_destroy_room_request_sync, delete_known, delete_room, leave_others, leave_known, leave_room,
  destroy_all_rooms, clean_up, clean_up_if_still_offline,
}
use pokemon_simulator_server.Room.Invariant.{
  Listed, IsRoom, AreRooms, IsServer, SamePlayers, SamePlayers-trans, SamePlayers-reply,
  SamePlayers-broadcast, SamePlayers-set_room_id, IsRoom-heap, IsServer-put, AreRooms-heap,
  AreRooms-erase, IsRoom-status,
}

departed-IsRoom :
    (h : Heap) (k : String) (r : GameRoom) (player : String)
    → nat_eq (length (departed r player).sessions) 0 ≡ false
    → IsRoom h (k, r)
    → IsRoom h (k, departed r player)
departed-IsRoom h k r player some_left w = record {
  named = w.named;
  flagged = keys-erase player r.sessions r.ready_players w.flagged;
  occupied = ground arith;
  capped = omega (arith, w.capped, length-erase-le player r.sessions);
  players = All-erase (Listed h) player r.sessions w.players;
}

module _ (env : Env) where
  delete_known-IsServer :
      (eng : Option EngineInstance) (room_id : String) (r : GameRoom) (v : Server)
      → AreRooms v.heap (erase room_id v.rooms)
      → IsServer (delete_known env eng room_id r v)
  unfolding delete_known
  delete_known-IsServer eng room_id r v ws = elim (Bool-cases (not (is_waiting r.status))) [
    | inr q ↦ rw q ws
    | inl q ↦ rw q (elim (Bool-cases (send_destroy_room_request_sync env eng room_id r.node_id).0) [
      | inl d ↦ rw d ws
      | inr d ↦ rw d ws
    ])
  ]

  -- Deleting a room, known or not, keeps every room well formed.
  pub delete_room-IsServer :
      (eng : Option EngineInstance) (room_id : String) (v : Server)
      → IsServer v
      → IsServer (delete_room env eng room_id v)
  unfolding delete_room
  delete_room-IsServer eng room_id v ws = elim (Option-cases (lookup room_id v.rooms)) [
    | inl q ↦ rw (q, delete_room) ws
    | inr (r, q) ↦
        rw (q, delete_room)
          (delete_known-IsServer eng room_id r v (AreRooms-erase v.heap v.rooms room_id ws))
  ]

  -- The room that is deleted need not be well formed: it has just lost its last player.
  delete_put-IsServer :
      (eng : Option EngineInstance) (room_id : String) (r : GameRoom) (v : Server) (h : Heap)
      → SamePlayers v.heap h
      → IsServer v
      → IsServer (
          delete_room env eng room_id
            (record (set_rooms v (insert room_id r v.rooms)) { heap = h }))
  unfolding delete_room
  delete_put-IsServer eng room_id r v h same ws =
      rw (lookup-insert_self room_id r v.rooms, delete_room)
        (delete_known-IsServer eng room_id r _ (
          rw (erase-insert room_id r v.rooms)
            (AreRooms-erase h v.rooms room_id (AreRooms-heap v.rooms same ws))))

  leave_others-IsServer :
      (room_id player : String) (r : GameRoom) (v : Server)
      → IsRoom v.heap (room_id, r)
      → IsServer v
      → IsServer (leave_others env room_id player r v)
  unfolding leave_others
  leave_others-IsServer room_id player r v w ws = elim (Bool-cases (is_playing r.status)) [
    | inr q ↦ rw q (AreRooms-heap v.rooms (SamePlayers-broadcast env.marshals _ _ v.heap) ws)
    | inl q ↦
        let same =
          SamePlayers-trans (SamePlayers-broadcast env.marshals (values r.sessions) _ v.heap)
            (SamePlayers-broadcast env.marshals (values r.sessions) _ _) in
        rw q (
          IsServer-put v _ room_id _ same
            (IsRoom-heap same _ (IsRoom-status v.heap room_id r finished w)) ws)
  ]

  leave_known-IsServer :
      (eng : Option EngineInstance) (room_id : String) (r : GameRoom) (p : ℕ) (v : Server)
      → IsRoom v.heap (room_id, r)
      → IsServer v
      → IsServer (leave_known env eng room_id r p v)
  unfolding leave_known
  leave_known-IsServer eng room_id r p v w ws =
      let same = SamePlayers-set_room_id v.heap p "" in
      elim (Bool-cases (nat_eq (length (departed r (player_id v p)).sessions) 0)) [
        | inl q ↦ rw q (delete_put-IsServer eng room_id _ v _ same ws)
        | inr q ↦
            let w' = IsRoom-heap same _ (departed-IsRoom v.heap room_id r (player_id v p) q w) in
            rw q (leave_others-IsServer room_id _ _ _ w' (IsServer-put v _ room_id _ same w' ws))
      ]

  -- Leaving a room, also as its last player, keeps every room well formed.
  pub leave_room-IsServer :
      (eng : Option EngineInstance) (room_id : String) (p : ℕ) (v : Server)
      → IsServer v
      → IsServer (leave_room env eng room_id p v)
  unfolding leave_room
  leave_room-IsServer eng room_id p v ws = elim (Option-cases (lookup room_id v.rooms)) [
    | inl q ↦
        rw (q, leave_room) (AreRooms-heap v.rooms (SamePlayers-reply env.marshals p _ v.heap) ws)
    | inr (r, q) ↦
        rw (q, leave_room)
          (leave_known-IsServer eng room_id r p v (All-lookup (IsRoom v.heap) room_id v.rooms ws q)
            ws)
  ]

  pub destroy_all_rooms-IsServer :
      (eng : Option EngineInstance) (v : Server) → IsServer (destroy_all_rooms env eng v)
  unfolding destroy_all_rooms
  destroy_all_rooms-IsServer eng v = tt

  clean_up-IsServer :
      (eng : Option EngineInstance) (uid : String) (p : ℕ) (v : Server)
      → IsServer v
      → IsServer (clean_up env eng uid p v)
  unfolding clean_up
  clean_up-IsServer eng uid p v ws = elim (Bool-cases (str_eq (v.heap.cell p).room_id "")) [
    | inl q ↦ rw q ws
    | inr q ↦ rw q (leave_room-IsServer eng _ p _ ws)
  ]

  -- The clean-up of a player who stayed offline keeps every room well formed.
  pub clean_up_if_still_offline-IsServer :
      (eng : Option EngineInstance) (uid : String) (v : Server)
      → IsServer v
      → IsServer (clean_up_if_still_offline env eng uid v)
  unfolding clean_up_if_still_offline
  clean_up_if_still_offline-IsServer eng uid v ws =
      elim (Option-cases (lookup uid v.all_sessions)) [
        | inl q ↦ rw (q, clean_up_if_still_offline) ws
        | inr (p, q) ↦
            rw (q, clean_up_if_still_offline)
              (elim (Bool-cases (is_some (v.heap.cell p).conn)) [
                | inl c ↦ rw c ws
                | inr c ↦ rw c (clean_up-IsServer eng uid p v ws)
              ])
      ]
