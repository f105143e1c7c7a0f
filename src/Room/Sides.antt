-- ===== src/Room/Sides.antt =====
-- internal/room/game.go: the two places that tell who plays on which side. buildBattleInitJSON
-- sorts the sessions of a room, battleSideForPlayer the keys of the same map.
use pokemon_simulator_server.Base.{
  ℕ, ◌≡◌, refl, sym, ◌∙◌, ap, ap₂, String, List, [], ◌∷◌, map, str_eq, str_le, string_eq,
  string_order, sort, insert_sorted, sort-perm, Permᴰ, Map, keys, values, All, All-imp, some, none,
  none_ne_some, eq_of_some, if◌then◌else◌, Bool-cases, inl, inr,
}
use pokemon_simulator_server.Room.Session.{Session}
use pokemon_simulator_server.Room.Heap.{Heap}
use pokemon_simulator_server.Room.GameRoom.{
  GameRoom, InitJson, side_among, battle_side_for_player, insert_by_id, sort_by_id, init_of_sorted,
  build_battle_init, room_sessions,
}
use pokemon_simulator_server.Room.Invariant.{IsRoom}

abbrev ids : List Session → List String
ids = map (λ s. s.player.id)

ids-insert_by_id :
    (s : Session) (l : List Session)
    → ids (insert_by_id s l) ≡ insert_sorted string_order s.player.id (ids l)
unfolding insert_by_id insert_sorted string_order
ids-insert_by_id s [] = refl
ids-insert_by_id s (t ∷ l) = elim (Bool-cases (str_le s.player.id t.player.id)) [
  | inl q ↦ rw q refl
  | inr q ↦ rw q (ap (λ k. t.player.id ∷ k) (ids-insert_by_id s l))
]

-- Sorting sessions by id sorts their ids.
ids-sort_by_id : (l : List Session) → ids (sort_by_id l) ≡ sort string_order (ids l)
unfolding sort_by_id sort
ids-sort_by_id [] = refl
ids-sort_by_id (s ∷ l) =
    ids-insert_by_id s (sort_by_id l)
    ∙ ap (insert_sorted string_order s.player.id) (ids-sort_by_id l)

ids-sessions :
    (h : Heap) (m : Map String ℕ)
    → All (λ (s : String × ℕ). (h.cell s.1).player.id ≡ s.0) m
    → ids (map h.cell (values m)) ≡ keys m
ids-sessions h [] a = refl
ids-sessions h ((k, p) ∷ m) a = ap₂ (λ x y. x ∷ y) a.0 (ids-sessions h m a.1)

sides-sorted :
    (seed : ℕ) (l : List Session) (p : String) {init : InitJson}
    → init_of_sorted seed l ≡ some init
    → side_among (ids l) p ≡ (
        if str_eq p init.side_a.name
        then some "a"
        else if str_eq p init.side_b.name
        then some "b"
        else none)
unfolding init_of_sorted side_among
sides-sorted seed [] p h = absurd (none_ne_some h)
sides-sorted seed (s ∷ []) p h = absurd (none_ne_some h)
sides-sorted seed (s ∷ t ∷ rest) p h =
    ap
      (λ (i : InitJson).
        if str_eq p i.side_a.name
        then some "a"
        else if str_eq p i.side_b.name
        then some "b"
        else none)
      (eq_of_some h)

-- The side of a player does not depend on the order in which the map of the sessions is visited.
pub battle_side_for_player-perm :
    (r s : GameRoom) (player : String)
    → Permᴰ (keys r.sessions) (keys s.sessions)
    → battle_side_for_player r player ≡ battle_side_for_player s player
unfolding battle_side_for_player
battle_side_for_player-perm r s player p = ap (λ l. side_among l player) (sort-perm string_order p)

-- In a well-formed room, the side that a battle action is sent for is the side of that player in the
-- payload that the room's battle was created with: side "a" for the payload's side_a, "b" for its side_b, and an error for
-- anyone else. Here r is the room when the battle is created, and now the room when the action comes: it
-- lists the same players, in any order, as the two loops visit them in any order.
pub battle_side-build_battle_init :
    (crc32 : String → ℕ) (h : Heap) (k : String) (r now : GameRoom) (player : String)
    {init : InitJson}
    → IsRoom h (k, r)
    → Permᴰ (keys now.sessions) (keys r.sessions)
    → build_battle_init crc32 r.id (room_sessions r h) ≡ some init
    → battle_side_for_player now player ≡ (
        if str_eq player init.side_a.name
        then some "a"
        else if str_eq player init.side_b.name
        then some "b"
        else none)
unfolding build_battle_init battle_side_for_player
battle_side-build_battle_init crc32 h k r now player w same e =
    battle_side_for_player-perm now r player same
    ∙ ap (λ l. side_among l player)
        (sym (
          ids-sort_by_id (room_sessions r h)
          ∙ ap (sort string_order)
              (ids-sessions h r.sessions (All-imp r.sessions (λ s l. l.0) w.players))))
    ∙ sides-sorted (crc32 r.id) (sort_by_id (room_sessions r h)) player e
