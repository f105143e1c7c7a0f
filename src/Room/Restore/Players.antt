-- ===== src/Room/Restore/Players.antt =====
-- internal/room/manager.go: the sessions and flags that restoreRoomSnapshot makes for a room's players.
use pokemon_simulator_server.Base.{
  ◌⊎◌, none, ℕ, ◌+◌, ◌≤◌, ◌<◌, ◌≡◌, refl, sym, ◌∙◌, ap, String, Bool, true, List, [], ◌∷◌,
  string_eq, str_eq, keys, lookup, insert, length, is_some, All, All-imp, All-insert, keys-insert,
  length-insert, lookup-insert, lookup-insert_self, arith, nat_eq, nat_eq_iff, Bool-cases, inl, inr,
}
use pokemon_simulator_server.Room.Session.{Session}
use pokemon_simulator_server.Room.Heap.{Heap}
use pokemon_simulator_server.Room.GameRoom.{GameRoom}
use pokemon_simulator_server.Room.Manager.{Server}
use pokemon_simulator_server.Room.Restore.{
  allocate, restored_session, restored_flag, restore_player, restore_players, bare_room,
}
use pokemon_simulator_server.Store.{RoomSnapshot}

-- A new cell leaves the others as they are.
pub cell-allocate : (h : Heap) (s : Session) (q : ℕ) → q < h.next → (allocate h s).cell q ≡ h.cell q
cell-allocate h s q b = elim (Bool-cases (nat_eq h.next q)) [
  | inl hit ↦ let same = (nat_eq_iff h.next q).0 hit in absurd (omega (arith, same, b))
  | inr miss ↦ rw miss refl
]

pub cell-allocate_self : (h : Heap) (s : Session) → (allocate h s).cell h.next ≡ s
cell-allocate_self h s = rw ((nat_eq_iff h.next h.next).1 refl) refl

module _ (snapshot : RoomSnapshot) where
  -- The session of a player as the snapshot gives it.
  abbrev pub Revived : Heap → String × ℕ → Type 0
  Revived h (id, p) = (h.cell p ≡ restored_session snapshot id) × (p < h.next)

  -- What the rounds so far have made of a room and of the server v0.
  pub record Restored (v0 : Server) (x : GameRoom × Server) : Type 0 where
    pub bare :
        x.0
        ≡ record (bare_room snapshot) { sessions = x.0.sessions; ready_players = x.0.ready_players }
    pub flagged : keys x.0.sessions ≡ keys x.0.ready_players
    pub revived : All (Revived x.1.heap) x.0.sessions
    pub flags : All (λ (f : String × Bool). f.1 ≡ restored_flag snapshot f.0) x.0.ready_players
    pub registered :
        (k : String)
        → (lookup k x.0.sessions ≡ none) ⊎ (lookup k x.1.all_sessions ≡ lookup k x.0.sessions)
    pub same_rooms : x.1.rooms ≡ v0.rooms
    pub cells : (q : ℕ) → q < v0.heap.next → x.1.heap.cell q ≡ v0.heap.cell q
    pub grown : v0.heap.next ≤ x.1.heap.next

  Revived-allocate :
      (h : Heap) (s : Session) (t : String × ℕ) → Revived h t → Revived (allocate h s) t
  Revived-allocate h s (id, p) (e, b) = (cell-allocate h s p b ∙ e, omega (arith, b))

  restore_player-Restored :
      (v0 : Server) (id : String) (r : GameRoom) (v : Server)
      → Restored v0 (r, v)
      → Restored v0 (restore_player snapshot id (r, v))
  unfolding restore_player
  restore_player-Restored v0 id r v w =
      let s = restored_session snapshot id in
      let grown = w.grown in
      record {
        bare =
            ap
              (λ (k : GameRoom). record k {
                sessions = insert id v.heap.next r.sessions;
                ready_players = insert id (restored_flag snapshot id) r.ready_players;
              })
              w.bare;
        flagged =
            keys-insert id v.heap.next (restored_flag snapshot id) r.sessions r.ready_players
              w.flagged;
        revived =
            All-insert (Revived (allocate v.heap s)) id v.heap.next r.sessions
              (λ j e.
                (cell-allocate_self v.heap s ∙ ap (restored_session snapshot) (sym e), omega arith))
              (All-imp r.sessions (Revived-allocate v.heap s) w.revived);
        flags =
            All-insert (λ (f : String × Bool). f.1 ≡ restored_flag snapshot f.0) id
              (restored_flag snapshot id) r.ready_players
              (λ j e. ap (restored_flag snapshot) (sym e)) w.flags;
        registered = λ k.
            let room = lookup-insert id k v.heap.next r.sessions in
            let table = lookup-insert id k v.heap.next v.all_sessions in
            elim (Bool-cases (str_eq id k)) [
              | inl q ↦ inr (rw (room, table, q) refl)
              | inr q ↦ elim (w.registered k) [
                | inl absent ↦ inl (rw (room, q) absent)
                | inr same ↦ inr (rw (room, table, q) same)
              ]
            ];
        same_rooms = w.same_rooms;
        cells = λ q b. cell-allocate v.heap s q (omega (arith, b, grown)) ∙ w.cells q b;
        grown = omega (arith, grown);
      }

  pub restore_players-Restored :
      (v0 : Server) (ids : List String) (x : GameRoom × Server)
      → Restored v0 x
      → Restored v0 (restore_players snapshot ids x)
  unfolding restore_players
  restore_players-Restored v0 [] x w = w
  restore_players-Restored v0 (id ∷ ids) (r, v) w =
      restore_players-Restored v0 ids _ (restore_player-Restored v0 id r v w)

  -- A player who is listed stays listed.
  listed-later :
      (ids : List String) (x : GameRoom × Server) (k : String)
      → is_some (lookup k x.0.sessions) ≡ true
      → is_some (lookup k (restore_players snapshot ids x).0.sessions) ≡ true
  unfolding restore_players restore_player
  listed-later [] x k h = h
  listed-later (id ∷ ids) (r, v) k h = listed-later ids _ k (elim (Bool-cases (str_eq id k)) [
    | inl q ↦ rw (lookup-insert id k v.heap.next r.sessions, q) refl
    | inr q ↦ rw (lookup-insert id k v.heap.next r.sessions, q) h
  ])

  -- Every player is listed in the end, and no more than these are.
  pub restore_players-listed :
      (ids : List String) (x : GameRoom × Server)
      → All (λ k. is_some (lookup k (restore_players snapshot ids x).0.sessions) ≡ true) ids
        × (length (restore_players snapshot ids x).0.sessions ≤ length x.0.sessions + length ids)
  unfolding restore_players restore_player
  restore_players-listed [] x = (tt, omega arith)
  restore_players-listed (id ∷ ids) (r, v) =
      let (later, short) = restore_players-listed ids (restore_player snapshot id (r, v)) in
      let grew = length-insert id v.heap.next r.sessions in
      (
        (listed-later ids _ id (rw (lookup-insert_self id v.heap.next r.sessions) refl), later),
        ground (arith, short, grew),
      )
