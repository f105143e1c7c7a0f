-- ===== src/Room/GameRoom.antt =====
-- internal/room/manager.go and game.go: GameRoom, its players and its battle sides.
use pokemon_simulator_server.Base.{
  ℕ, zero, suc, String, Bool, true, false, Option, none, some, List, [], ◌∷◌, map, ℤ, pos, str_eq,
  str_le, string_eq, string_order, sort, Map, keys, values, if◌then◌else◌,
}
use pokemon_simulator_server.Protocol.{Player, JsonObject, ReconnectResponse}
use pokemon_simulator_server.Room.Session.{Session}
use pokemon_simulator_server.Room.Heap.{Heap}

-- RoomStatus is an int, and a snapshot may hold any.
pub data RoomStatus : Type 0 where
  waiting playing finished : RoomStatus
  other : ℤ → RoomStatus

-- RoomStatus(n)
abbrev pub status_of_int : ℤ → RoomStatus
status_of_int (pos zero) = waiting
status_of_int (pos (suc zero)) = playing
status_of_int (pos (suc (suc zero))) = finished
status_of_int n = other n

-- int(status)
abbrev pub int_of_status : RoomStatus → ℤ
int_of_status waiting = pos 0
int_of_status playing = pos 1
int_of_status finished = pos 2
int_of_status (other n) = n

abbrev pub is_waiting : RoomStatus → Bool
is_waiting waiting = true
is_waiting s = false

abbrev pub is_playing : RoomStatus → Bool
is_playing playing = true
is_playing s = false

pub record GameRoom : Type 0 where
  pub id : String
  pub sessions : Map String ℕ
  pub status : RoomStatus
  pub node_id : ℤ
  pub ready_players : Map String Bool

-- GetPlayersInRoom
unfoldable pub get_players_in_room : GameRoom → Heap → List Player
get_players_in_room r h = map (λ p. (h.cell p).player) (values r.sessions)

-- GetSnapshot
unfoldable pub get_snapshot : GameRoom → Heap → ReconnectResponse
unfolding get_players_in_room
get_snapshot r h = record {
  room_id = r.id;
  room_state = int_of_status r.status;
  players = get_players_in_room r h;
  game_data = "{\"status\": \"waiting_cpp_integration\"}";
}

-- The answer for the sorted ids of the players.
unfoldable pub side_among : List String → String → Option String
side_among [] p = none
side_among (a ∷ []) p = if str_eq a p then some "a" else none
side_among (a ∷ b ∷ rest) p = if str_eq p a then some "a" else if str_eq p b then some "b" else none

-- battleSideForPlayer
unfoldable pub battle_side_for_player : GameRoom → String → Option String
unfolding side_among sort string_order
battle_side_for_player r p = side_among (sort string_order (keys r.sessions)) p

pub record Side : Type 0 where
  pub name : String
  pub pokemon : List JsonObject

pub record InitJson : Type 0 where
  pub side_a : Side
  pub side_b : Side
  pub seed : ℕ

-- sort.Slice by Player.ID
unfoldable pub insert_by_id : Session → List Session → List Session
insert_by_id s [] = s ∷ []
insert_by_id s (t ∷ l) = if str_le s.player.id t.player.id then s ∷ t ∷ l else t ∷ insert_by_id s l

unfoldable pub sort_by_id : List Session → List Session
unfolding insert_by_id
sort_by_id [] = []
sort_by_id (s ∷ l) = insert_by_id s (sort_by_id l)

abbrev pub side_of : Session → Side
side_of s = record { name = s.player.id; pokemon = s.selected_pokemon }

-- The payload of two or more sorted sessions: the error "sessions must be at least 2" is `none`.
unfoldable pub init_of_sorted : ℕ → List Session → Option InitJson
init_of_sorted seed [] = none
init_of_sorted seed (s ∷ []) = none
init_of_sorted seed (s ∷ t ∷ rest) =
    some (record { side_a = side_of s; side_b = side_of t; seed = seed })

-- buildBattleInitJSON, before json.Marshal
unfoldable pub build_battle_init : (String → ℕ) → String → List Session → Option InitJson
unfolding sort_by_id init_of_sorted
build_battle_init crc32 room_id sessions = init_of_sorted (crc32 room_id) (sort_by_id sessions)

-- The sessions of a room, as a loop over r.Sessions collects them.
abbrev pub room_sessions : GameRoom → Heap → List Session
room_sessions r h = map h.cell (values r.sessions)
