-- ===== src/Room/People.antt =====
-- internal/room: the sessions and their table before and after an operation on rooms.
pub mod Rooms
pub mod Games
use pokemon_simulator_server.Base.{ℕ, ◌≡◌, refl, ◌∙◌, ap, String, Map}
use pokemon_simulator_server.Room.Heap.{Heap}
use pokemon_simulator_server.Room.GameRoom.{GameRoom}
use pokemon_simulator_server.Room.Manager.{Server, RoomManager, set_rooms}
use pokemon_simulator_server.Room.Invariant.{SamePlayers, SamePlayers-trans}
use pokemon_simulator_server.Room.Invariant.Sends.{OnlySends}

pub record SamePeople (v w : Server) : Type 0 where
  pub same_players : SamePlayers v.heap w.heap
  pub same_table : w.all_sessions ≡ v.all_sessions

pub SamePeople-refl : (v : Server) → SamePeople v v
SamePeople-refl v = record {
  same_players = record { at = λ q. refl; same_next = refl };
  same_table = refl;
}

pub SamePeople-trans : {u v w : Server} → SamePeople u v → SamePeople v w → SamePeople u w
SamePeople-trans a b = record {
  same_players = SamePlayers-trans a.same_players b.same_players;
  same_table = b.same_table ∙ a.same_table;
}

pub SamePeople-heap :
    (v : Server) (h : Heap) → SamePlayers v.heap h → SamePeople v (record v { heap = h })
SamePeople-heap v h same = record { same_players = same; same_table = refl }

pub SamePeople-set_rooms :
    (v : Server) (rooms : Map String GameRoom) → SamePeople v (set_rooms v rooms)
SamePeople-set_rooms v rooms = record {
  same_players = record { at = λ q. refl; same_next = refl };
  same_table = refl;
}

pub OnlySends-SamePeople : {v w : Server} → OnlySends v w → SamePeople v w
OnlySends-SamePeople o = record {
  same_players = o.same_players;
  same_table = ap (λ (m : RoomManager). m.all_sessions) o.same_manager;
}
