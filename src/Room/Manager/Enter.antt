-- ===== src/Room/Manager/Enter.antt =====
-- internal/room/manager.go: what CreateRoom and JoinRoom do to the rooms.
use pokemon_simulator_server.Base.{
  ℕ, suc, ◌<◌, ◌≡◌, ◌↔◌, refl, ◌∙◌, ap, String, Bool, true, false, List, [], ◌∷◌, ◌++◌, arith,
  string_eq, str_eq, Map, lookup, length, is_some, lookup-insert, length-insert, lookup-insert_self,
  some, none, Option-cases, none_ne_some, eq_of_some, if◌then◌else◌, Bool-cases, inl, inr,
  nat_eq_iff, subst, pos,
}
use pokemon_simulator_server.Room.Heap.{Heap, room_id-reply, room_id-broadcast}
use pokemon_simulator_server.Room.GameRoom.{GameRoom, is_waiting, waiting}
use pokemon_simulator_server.Room.Env.{Env}
use pokemon_simulator_server.Room.Manager.{
  Server, player_id, set_room_id, draw_room_id, admitted, JoinVerdict, admit, already_in_room,
  room_started, room_full, judge_join, create_room, join_known, join_room,
}

draw_room_id-fresh :
    (draws : List String) (rooms : Map String GameRoom) {id : String}
    → draw_room_id draws rooms ≡ some id
    → lookup id rooms ≡ none
unfolding draw_room_id
draw_room_id-fresh [] rooms h = absurd (none_ne_some h)
draw_room_id-fresh (i ∷ draws) rooms {id} h = elim (Option-cases (lookup i rooms)) [
  | inl q ↦ subst (λ j. lookup j rooms ≡ none) (eq_of_some (rw q at h)) q
  | inr (r, q) ↦ draw_room_id-fresh draws rooms (rw q at h)
]

draw_room_id-found :
    (before : List String) (free : String) (after : List String) (rooms : Map String GameRoom)
    → lookup free rooms ≡ none
    → (id : String) × (draw_room_id (before ++ free ∷ after) rooms ≡ some id)
unfolding draw_room_id
draw_room_id-found [] free after rooms h = (free, rw h refl)
draw_room_id-found (i ∷ before) free after rooms h = elim (Bool-cases (is_some (lookup i rooms))) [
  | inl q ↦ rw q (draw_room_id-found before free after rooms h)
  | inr q ↦ (i, rw q refl)
]

pub set_room_id_self :
    (h : Heap) (p : ℕ) (room_id : String) → ((set_room_id h p room_id).cell p).room_id ≡ room_id
set_room_id_self h p room_id = rw ((nat_eq_iff p p).1 refl) refl

-- A room that waits, with no node yet, for one player who is not ready.
abbrev pub lone_room : String → String → ℕ → GameRoom
lone_room room_id player p = record {
  id = room_id;
  sessions = (player, p) ∷ [];
  status = waiting;
  node_id = pos 0;
  ready_players = (player, false) ∷ [];
}

module _ (env : Env) where
  -- The id of a created room was not taken. The room holds its creator alone, waiting and not ready;
  -- every other room is as it was; and the creator's session names the new room.
  pub create_room_lem :
      (draws : List String) (p : ℕ) (v : Server) {room_id : String} {w : Server}
      → create_room env draws p v ≡ some (room_id, w)
      → (lookup room_id v.rooms ≡ none)
        × ((k : String)
            → lookup k w.rooms ≡ (
                if str_eq room_id k
                then some (lone_room room_id (player_id v p) p)
                else lookup k v.rooms))
        × ((w.heap.cell p).room_id ≡ room_id)
  unfolding create_room
  create_room_lem draws p v {room_id} {w} e = elim (Option-cases (draw_room_id draws v.rooms)) [
    | inl q ↦ absurd (none_ne_some (rw (q, create_room) at e))
    | inr (id, q) ↦
        subst
          (λ (x : String × Server).
            (lookup x.0 v.rooms ≡ none)
            × ((k : String)
                → lookup k x.1.rooms ≡ (
                    if str_eq x.0 k
                    then some (lone_room x.0 (player_id v p) p)
                    else lookup k v.rooms))
            × ((x.1.heap.cell p).room_id ≡ x.0))
          (eq_of_some (rw (q, create_room) at e))
          (
            draw_room_id-fresh draws v.rooms q,
            (λ k. lookup-insert id k _ v.rooms),
            room_id-reply env.marshals p _ _ p ∙ set_room_id_self v.heap p id,
          )
  ]

  -- The search for an id ends: a room is created as soon as one of the drawn ids is free.
  pub create_room-total :
      (before : List String) (free : String) (after : List String) (p : ℕ) (v : Server)
      → lookup free v.rooms ≡ none
      → is_some (create_room env (before ++ free ∷ after) p v) ≡ true
  unfolding create_room
  create_room-total before free after p v h =
      let (id, q) = draw_room_id-found before free after v.rooms h in rw (q, create_room) refl

  -- What a player must find to be let in.
  pub record MayJoin (v : Server) (room_id : String) (p : ℕ) (r : GameRoom) : Type 0 where
    pub found : lookup room_id v.rooms ≡ some r
    pub new_here : is_some (lookup (player_id v p) r.sessions) ≡ false
    pub open_room : is_waiting r.status ≡ true
    pub space : length r.sessions < 2

  judge_join-MayJoin :
      (v : Server) (room_id : String) (p : ℕ) (r : GameRoom)
      → lookup room_id v.rooms ≡ some r
      → judge_join r (player_id v p) ≡ admit
      → MayJoin v room_id p r
  unfolding judge_join
  judge_join-MayJoin v room_id p r q j = record {
    found = q;
    new_here = ground arith;
    open_room = ground arith;
    space = ground arith;
  }

  MayJoin-admit :
      (v : Server) (room_id : String) (p : ℕ) (r : GameRoom)
      → MayJoin v room_id p r
      → judge_join r (player_id v p) ≡ admit
  unfolding judge_join
  MayJoin-admit v room_id p r m =
      let a = m.new_here in let b = m.open_room in let c = m.space in ground (arith, a, b, c)

  -- A player who may join is let in.
  join_room-entered :
      (room_id : String) (p : ℕ) (v : Server) (r : GameRoom)
      → MayJoin v room_id p r
      → join_room env room_id p v ≡ join_known env r room_id p v admit
  unfolding join_room
  join_room-entered room_id p v r m = rw (m.found, join_room, MayJoin-admit v room_id p r m) refl

  known-verdict :
      (room_id : String) (p : ℕ) (v : Server) (r : GameRoom) (j : JoinVerdict)
      → (join_known env r room_id p v j).1.0 ≡ true
      → j ≡ admit
  unfolding join_known
  known-verdict room_id p v r admit h = refl
  known-verdict room_id p v r already_in_room h = absurd (cc h)
  known-verdict room_id p v r room_started h = absurd (cc h)
  known-verdict room_id p v r room_full h = absurd (cc h)

  join_room-verdict :
      (room_id : String) (p : ℕ) (v : Server)
      → (join_room env room_id p v).1.0 ≡ true
      → (r : GameRoom) × MayJoin v room_id p r
  unfolding join_room
  join_room-verdict room_id p v h = elim (Option-cases (lookup room_id v.rooms)) [
    | inl q ↦ absurd (cc (rw (q, join_room) at h))
    | inr (r, q) ↦ (
      r,
      judge_join-MayJoin v room_id p r q (known-verdict room_id p v r _ (rw (q, join_room) at h)),
    )
  ]

  -- JoinRoom reports success exactly if the room is there, waits, does not list the player yet, and
  -- has fewer than two players.
  pub join_room-accepts :
      (room_id : String) (p : ℕ) (v : Server)
      → ((join_room env room_id p v).1.0 ≡ true) ↔ ((r : GameRoom) × MayJoin v room_id p r)
  unfolding join_known
  join_room-accepts room_id p v = (
    join_room-verdict room_id p v,
    λ (r, m). ap (λ (x : Server × (Bool × String)). x.1.0) (join_room-entered room_id p v r m),
  )

  -- A player who may join is added to the room as not ready and the room grows by this one player;
  -- every other room is as it was; and the session of the player names the room.
  pub join_room-admits :
      (room_id : String) (p : ℕ) (v : Server) (r : GameRoom)
      → MayJoin v room_id p r
      → let w = (join_room env room_id p v).0 in
        ((k : String)
          → lookup k w.rooms
            ≡ (if str_eq room_id k then some (admitted r (player_id v p) p) else lookup k v.rooms))
        × (length (admitted r (player_id v p) p).sessions ≡ suc (length r.sessions))
        × (lookup (player_id v p) (admitted r (player_id v p) p).ready_players ≡ some false)
        × ((w.heap.cell p).room_id ≡ room_id)
  unfolding join_known
  join_room-admits room_id p v r m = rw (join_room-entered room_id p v r m) (
    (λ k. lookup-insert room_id k _ v.rooms),
    length-insert (player_id v p) p r.sessions ∙ rw m.new_here refl,
    lookup-insert_self (player_id v p) false r.ready_players,
    room_id-broadcast env.marshals _ _ _ p
        ∙ room_id-reply env.marshals p _ _ p
        ∙ set_room_id_self v.heap p room_id,
  )

  -- A refusal touches neither the rooms nor the table of sessions, and no session's room.
  known-refused :
      (room_id : String) (p : ℕ) (v : Server) (r : GameRoom) (j : JoinVerdict)
      → (join_known env r room_id p v j).1.0 ≡ false
      → let w = (join_known env r room_id p v j).0 in
        (w.manager ≡ v.manager) × ((q : ℕ) → (w.heap.cell q).room_id ≡ (v.heap.cell q).room_id)
  unfolding join_known
  known-refused room_id p v r admit h = absurd (cc h)
  known-refused room_id p v r already_in_room h = (refl, room_id-reply env.marshals p _ v.heap)
  known-refused room_id p v r room_started h = (refl, room_id-reply env.marshals p _ v.heap)
  known-refused room_id p v r room_full h = (refl, room_id-reply env.marshals p _ v.heap)

  -- When JoinRoom reports failure it has changed no room, no table of sessions and no session's room.
  pub join_room-refuses :
      (room_id : String) (p : ℕ) (v : Server)
      → (join_room env room_id p v).1.0 ≡ false
      → let w = (join_room env room_id p v).0 in
        (w.manager ≡ v.manager) × ((q : ℕ) → (w.heap.cell q).room_id ≡ (v.heap.cell q).room_id)
  unfolding join_room
  join_room-refuses room_id p v h = elim (Option-cases (lookup room_id v.rooms)) [
    | inl q ↦ rw (q, join_room) (refl, room_id-reply env.marshals p _ v.heap)
    | inr (r, q) ↦ rw (q, join_room) (known-refused room_id p v r _ (rw (q, join_room) at h))
  ]
