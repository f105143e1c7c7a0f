-- ===== src/Room/Invariant/Enter.antt =====
-- internal/room/manager.go: creating and joining rooms keep the rooms well formed.
use pokemon_simulator_server.Base.{
  ℕ, suc, ◌<◌, ◌≡◌, refl, sym, ◌∙◌, String, false, List, arith, string_eq, lookup, insert, length,
  is_some, All-insert, All-lookup, length-insert, keys-insert, some, Option-cases, none_ne_some,
  eq_of_some, inl, inr, subst,
}
use pokemon_simulator_server.Protocol.{GameResponse}
use pokemon_simulator_server.Room.Heap.{Heap, reply}
use pokemon_simulator_server.Room.GameRoom.{GameRoom}
use pokemon_simulator_server.Room.Env.{Env}
use pokemon_simulator_server.Room.Manager.{
  Server, player_id, set_room_id, draw_room_id, new_room, admitted, JoinVerdict, admit,
  already_in_room, room_started, room_full, judge_join, create_room, join_known, join_room,
}
use pokemon_simulator_server.Room.Invariant.{
  Listed, IsRoom, AreRooms, IsServer, SamePlayers-trans, SamePlayers-reply, SamePlayers-broadcast,
  SamePlayers-set_room_id, IsRoom-heap, IsServer-put, AreRooms-heap,
}

new_room-IsRoom :
    (h : Heap) (room_id player : String) (p : ℕ)
    → (h.cell p).player.id ≡ player
    → p < h.next
    → IsRoom h (room_id, new_room room_id player p)
new_room-IsRoom h room_id player p e b = record {
  named = refl;
  flagged = refl;
  occupied = omega arith;
  capped = omega arith;
  players = ((e, b), tt);
}

judge_join-admit :
    (r : GameRoom) (player : String)
    → judge_join r player ≡ admit
    → (is_some (lookup player r.sessions) ≡ false) × (length r.sessions < 2)
unfolding judge_join
judge_join-admit r player h = ground arith

admitted-IsRoom :
    (h : Heap) (k : String) (r : GameRoom) (p : ℕ)
    → p < h.next
    → judge_join r (h.cell p).player.id ≡ admit
    → IsRoom h (k, r)
    → IsRoom h (k, admitted r (h.cell p).player.id p)
admitted-IsRoom h k r p b j w =
    let (fresh, space) = judge_join-admit r (h.cell p).player.id j in
    let grown : length (insert (h.cell p).player.id p r.sessions) ≡ suc (length r.sessions) =
      length-insert (h.cell p).player.id p r.sessions ∙ rw fresh refl in
    record {
      named = w.named;
      flagged = keys-insert (h.cell p).player.id p false r.sessions r.ready_players w.flagged;
      occupied = omega (arith, grown);
      capped = omega (arith, grown);
      players =
          All-insert (Listed h) (h.cell p).player.id p r.sessions (λ j e. (sym e, b)) w.players;
    }

module _ (env : Env) where
  created_at :
      (room_id : String) (p : ℕ) (v : Server) (m : GameResponse)
      → p < v.heap.next
      → IsServer v
      → AreRooms
          (reply env.marshals p m (set_room_id v.heap p room_id))
          (insert room_id (new_room room_id (player_id v p) p) v.rooms)
  created_at room_id p v m b ws =
      let same =
        SamePlayers-trans (SamePlayers-set_room_id v.heap p room_id)
          (SamePlayers-reply env.marshals p m (set_room_id v.heap p room_id)) in
      IsServer-put v _ room_id _ same
        (IsRoom-heap same _ (new_room-IsRoom v.heap room_id _ p refl b)) ws

  -- Creating a room keeps every room well formed.
  pub create_room-IsServer :
      (draws : List String) (p : ℕ) (v : Server) {room_id : String} {w : Server}
      → p < v.heap.next
      → IsServer v
      → create_room env draws p v ≡ some (room_id, w)
      → IsServer w
  unfolding create_room
  create_room-IsServer draws p v b ws e = elim (Option-cases (draw_room_id draws v.rooms)) [
    | inl q ↦ absurd (none_ne_some (rw (q, create_room) at e))
    | inr (id, q) ↦
        subst (λ (x : String × Server). IsServer x.1) (eq_of_some (rw (q, create_room) at e))
          (created_at id p v _ b ws)
  ]

  join_known-IsServer :
      (r : GameRoom) (room_id : String) (p : ℕ) (v : Server) (j : JoinVerdict)
      → p < v.heap.next
      → judge_join r (player_id v p) ≡ j
      → IsServer v
      → IsRoom v.heap (room_id, r)
      → IsServer (join_known env r room_id p v j).0
  unfolding join_known
  join_known-IsServer r room_id p v already_in_room b q ws w =
      AreRooms-heap v.rooms (SamePlayers-reply env.marshals p _ v.heap) ws
  join_known-IsServer r room_id p v room_started b q ws w =
      AreRooms-heap v.rooms (SamePlayers-reply env.marshals p _ v.heap) ws
  join_known-IsServer r room_id p v room_full b q ws w =
      AreRooms-heap v.rooms (SamePlayers-reply env.marshals p _ v.heap) ws
  join_known-IsServer r room_id p v admit b q ws w =
      let same =
        SamePlayers-trans
          (SamePlayers-trans (SamePlayers-set_room_id v.heap p room_id)
            (SamePlayers-reply env.marshals p _ (set_room_id v.heap p room_id)))
          (SamePlayers-broadcast env.marshals _ _ _) in
      IsServer-put v _ room_id _ same
        (IsRoom-heap same _ (admitted-IsRoom v.heap room_id r p b q w)) ws

  -- Joining a room, or failing to, keeps every room well formed.
  pub join_room-IsServer :
      (room_id : String) (p : ℕ) (v : Server)
      → p < v.heap.next
      → IsServer v
      → IsServer (join_room env room_id p v).0
  unfolding join_room
  join_room-IsServer room_id p v b ws = elim (Option-cases (lookup room_id v.rooms)) [
    | inl q ↦
        rw (q, join_room) (AreRooms-heap v.rooms (SamePlayers-reply env.marshals p _ v.heap) ws)
    | inr (r, q) ↦
        rw (q, join_room)
          (join_known-IsServer r room_id p v _ b refl ws
            (All-lookup (IsRoom v.heap) room_id v.rooms ws q))
  ]
