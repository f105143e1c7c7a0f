-- ===== src/Room/People/Rooms.antt =====
-- internal/room/manager.go and match.go: creating, joining and leaving rooms.
use pokemon_simulator_server.Base.{
  ℕ, ◌≡◌, refl, sym, subst, String, List, string_eq, str_eq, lookup, length, values, nat_eq, not,
  Option, some, Option-cases, none_ne_some, eq_of_some, Bool-cases, inl, inr, erase, is_some, All,
  All-erase,
}
use pokemon_simulator_server.Engine.Instance.{EngineInstance}
use pokemon_simulator_server.Room.GameRoom.{GameRoom, is_playing, is_waiting}
use pokemon_simulator_server.Room.Env.{Env}
use pokemon_simulator_server.Room.Manager.{
  Server, player_id, departed, JoinVerdict, admit, already_in_room, room_started, room_full,
  create_room, join_known, join_room, draw_room_id, sync_room_state,
}
use pokemon_simulator_server.Room.Manager.Closing.{
  delete_known, delete_room, leave_others, leave_known, leave_room, clean_up,
  clean_up_if_still_offline, send_destroy_room_request_sync,
}
use pokemon_simulator_server.Room.Match.{match_players}
use pokemon_simulator_server.Room.Invariant.{
  SamePlayers, SamePlayers-trans, SamePlayers-reply, SamePlayers-broadcast, SamePlayers-set_room_id,
}
use pokemon_simulator_server.Room.People.{
  SamePeople, SamePeople-refl, SamePeople-trans, SamePeople-heap, SamePeople-set_rooms,
}

module _ (env : Env) where
  pub create_room-SamePeople :
      (draws : List String) (p : ℕ) (v : Server) {id : String} {w : Server}
      → create_room env draws p v ≡ some (id, w)
      → SamePeople v w
  unfolding create_room
  create_room-SamePeople draws p v e = elim (Option-cases (draw_room_id draws v.rooms)) [
    | inl q ↦ absurd (none_ne_some (rw (q, create_room) at e))
    | inr (id, q) ↦
        subst (λ (x : String × Server). SamePeople v x.1) (eq_of_some (rw (q, create_room) at e))
          (record {
            same_players =
                SamePlayers-trans (SamePlayers-set_room_id v.heap p id)
                  (SamePlayers-reply env.marshals p _ _);
            same_table = refl;
          })
  ]

  join_known-SamePeople :
      (r : GameRoom) (room_id : String) (p : ℕ) (v : Server) (j : JoinVerdict)
      → SamePeople v (join_known env r room_id p v j).0
  unfolding join_known
  join_known-SamePeople r room_id p v already_in_room =
      SamePeople-heap v _ (SamePlayers-reply env.marshals p _ v.heap)
  join_known-SamePeople r room_id p v room_started =
      SamePeople-heap v _ (SamePlayers-reply env.marshals p _ v.heap)
  join_known-SamePeople r room_id p v room_full =
      SamePeople-heap v _ (SamePlayers-reply env.marshals p _ v.heap)
  join_known-SamePeople r room_id p v admit = record {
    same_players =
        SamePlayers-trans
          (SamePlayers-trans (SamePlayers-set_room_id v.heap p room_id)
            (SamePlayers-reply env.marshals p _ _))
          (SamePlayers-broadcast env.marshals _ _ _);
    same_table = refl;
  }

  pub join_room-SamePeople :
      (room_id : String) (p : ℕ) (v : Server) → SamePeople v (join_room env room_id p v).0
  unfolding join_room
  join_room-SamePeople room_id p v = elim (Option-cases (lookup room_id v.rooms)) [
    | inl q ↦ rw (q, join_room) (SamePeople-heap v _ (SamePlayers-reply env.marshals p _ v.heap))
    | inr (r, q) ↦ rw (q, join_room) (join_known-SamePeople r room_id p v _)
  ]

  pub match_players-SamePeople :
      (draws : List String) (p q : ℕ) (v : Server) {x : Server}
      → match_players env draws p q v ≡ some x
      → SamePeople v x
  unfolding match_players
  match_players-SamePeople draws p q v e = elim (Option-cases (create_room env draws p v)) [
    | inl none_free ↦ absurd (none_ne_some (rw (none_free, match_players) at e))
    | inr ((id, w), made) ↦
        subst (SamePeople v) (eq_of_some (rw (made, match_players) at e))
          (SamePeople-trans (create_room-SamePeople draws p v made) (join_room-SamePeople _ q w))
  ]

  pub sync_room_state-SamePeople : (p : ℕ) (v : Server) → SamePeople v (sync_room_state env p v)
  unfolding sync_room_state
  sync_room_state-SamePeople p v = elim (Option-cases (lookup (v.heap.cell p).room_id v.rooms)) [
    | inl q ↦
        rw (q, sync_room_state) (SamePeople-heap v _ (SamePlayers-reply env.marshals p _ v.heap))
    | inr (r, q) ↦
        rw (q, sync_room_state)
          (SamePeople-heap v _ (
            SamePlayers-trans (SamePlayers-reply env.marshals p _ v.heap)
              (SamePlayers-broadcast env.marshals _ _ _)))
  ]

  module _ (eng : Option EngineInstance) where
    delete_known-SamePeople :
        (room_id : String) (r : GameRoom) (v : Server)
        → SamePeople v (delete_known env eng room_id r v)
    unfolding delete_known
    delete_known-SamePeople room_id r v =
        let gone = SamePeople-set_rooms v (erase room_id v.rooms) in
        elim (Bool-cases (not (is_waiting r.status))) [
          | inr q ↦ rw q gone
          | inl q ↦
              rw q (elim (Bool-cases (send_destroy_room_request_sync env eng room_id r.node_id).0) [
                | inl d ↦ rw d (record { same_players = gone.same_players; same_table = refl })
                | inr d ↦ rw d (record { same_players = gone.same_players; same_table = refl })
              ])
        ]

    delete_room-SamePeople :
        (room_id : String) (v : Server) → SamePeople v (delete_room env eng room_id v)
    unfolding delete_room
    delete_room-SamePeople room_id v = elim (Option-cases (lookup room_id v.rooms)) [
      | inl q ↦ rw (q, delete_room) (SamePeople-refl v)
      | inr (r, q) ↦ rw (q, delete_room) (delete_known-SamePeople room_id r v)
    ]

    leave_others-SamePeople :
        (room_id player : String) (r : GameRoom) (v : Server)
        → SamePeople v (leave_others env room_id player r v)
    unfolding leave_others
    leave_others-SamePeople room_id player r v =
        let told = SamePlayers-broadcast env.marshals (values r.sessions) _ v.heap in
        elim (Bool-cases (is_playing r.status)) [
          | inr q ↦ rw q (record { same_players = told; same_table = refl })
          | inl q ↦ rw q (record {
            same_players =
                SamePlayers-trans told (SamePlayers-broadcast env.marshals (values r.sessions) _ _);
            same_table = refl;
          })
        ]

    leave_known-SamePeople :
        (room_id : String) (r : GameRoom) (p : ℕ) (v : Server)
        → SamePeople v (leave_known env eng room_id r p v)
    unfolding leave_known
    leave_known-SamePeople room_id r p v =
        let out = SamePlayers-set_room_id v.heap p "" in
        elim (Bool-cases (nat_eq (length (departed r (player_id v p)).sessions) 0)) [
          | inl q ↦ rw q (
              SamePeople-trans (record { same_players = out; same_table = refl })
                (delete_room-SamePeople room_id _))
          | inr q ↦ rw q (
              SamePeople-trans (record { same_players = out; same_table = refl })
                (leave_others-SamePeople room_id _ _ _))
        ]

    pub leave_room-SamePeople :
        (room_id : String) (p : ℕ) (v : Server) → SamePeople v (leave_room env eng room_id p v)
    unfolding leave_room
    leave_room-SamePeople room_id p v = elim (Option-cases (lookup room_id v.rooms)) [
      | inl q ↦ rw (q, leave_room) (SamePeople-heap v _ (SamePlayers-reply env.marshals p _ v.heap))
      | inr (r, q) ↦ rw (q, leave_room) (leave_known-SamePeople room_id r p v)
    ]

    -- A clean-up forgets at most the player's entry of the table.
    pub clean_up-table :
        (P : String × ℕ → Type 0) (uid : String) (v : Server)
        → All P v.all_sessions
        → All P (clean_up_if_still_offline env eng uid v).all_sessions
          × SamePlayers v.heap (clean_up_if_still_offline env eng uid v).heap
    unfolding clean_up_if_still_offline clean_up
    clean_up-table P uid v h =
        let same = (SamePeople-refl v).same_players in
        elim (Option-cases (lookup uid v.all_sessions)) [
          | inl q ↦ rw (q, clean_up_if_still_offline) (h, same)
          | inr (p, q) ↦ elim (Bool-cases (is_some (v.heap.cell p).conn)) [
            | inl c ↦ rw (q, clean_up_if_still_offline, c) (h, same)
            | inr c ↦
                let rest = All-erase P uid v.all_sessions h in
                let u : Server = record v {
                  manager = record v.manager { all_sessions = erase uid v.all_sessions };
                } in
                elim (Bool-cases (str_eq (v.heap.cell p).room_id "")) [
                  | inl e ↦ rw (q, clean_up_if_still_offline, c, clean_up, e) (rest, same)
                  | inr e ↦
                      let left = leave_room-SamePeople (v.heap.cell p).room_id p u in
                      rw (q, clean_up_if_still_offline, c, clean_up, e)
                        (subst (All P) (sym left.same_table) rest, left.same_players)
                ]
          ]
        ]
