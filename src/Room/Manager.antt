-- ===== src/Room/Manager.antt =====
-- internal/room/manager.go: RoomManager and the operations on rooms. Each operation is one step;
-- the mutexes make it so. `none` for the engine is a nil EngineConn.
pub mod Closing
pub mod Enter
pub mod Exit
use pokemon_simulator_server.Base.{
  ℕ, zero, suc, ◌+◌, String, str_append, Bool, true, false, ◌&&◌, Option, none, some, List, [], ◌∷◌,
  ◌++◌, map, ℤ, pos, str_eq, string_eq, Map, keys, values, lookup, insert, erase, is_some, length,
  leb, nat_eq, not, if◌then◌else◌,
}
use pokemon_simulator_server.Configs.{max_players_per_room}
use pokemon_simulator_server.Engine.Node.{EngineNode}
use pokemon_simulator_server.Engine.Instance.{EngineInstance, get_node_by_pod_index}
use pokemon_simulator_server.Protocol.{
  Payload, Value, RoomInfo, GameResponse, response, code_success, code_send_duplicate,
  code_room_not_exist, code_room_full,
}
use pokemon_simulator_server.Room.Session.{Session}
use pokemon_simulator_server.Room.Heap.{Heap, update, reply, broadcast}
use pokemon_simulator_server.Room.GameRoom.{
  GameRoom, RoomStatus, waiting, playing, finished, is_waiting, is_playing, get_snapshot,
}
use pokemon_simulator_server.Room.Env.{
  Env, EngineCall, destroy_room_call, RpcOutcome, rpc_error, rpc_response,
}

pub record RoomManager : Type 0 where
  pub rooms : Map String GameRoom
  pub all_sessions : Map String ℕ

-- The manager, the sessions, and the calls made to the C++ engine so far, oldest first.
pub record Server : Type 0 where
  pub manager : RoomManager
  pub open manager use *
  pub heap : Heap
  pub calls : List EngineCall

-- NewRoomManager
abbrev pub new_room_manager : RoomManager
new_room_manager = record { rooms = []; all_sessions = [] }

abbrev pub set_rooms : Server → Map String GameRoom → Server
set_rooms v rooms = record v { manager = record v.manager { rooms = rooms } }

abbrev pub player_id : Server → ℕ → String
player_id v p = (v.heap.cell p).player.id

-- s.RoomID = roomID
abbrev pub set_room_id : Heap → ℕ → String → Heap
set_room_id h p room_id = update h p (record (h.cell p) { room_id = room_id })

-- The loop that draws ids until one is not taken: `none` if all of the given draws are taken.
unfoldable pub draw_room_id : List String → Map String GameRoom → Option String
draw_room_id [] rooms = none
draw_room_id (id ∷ draws) rooms =
    if is_some (lookup id rooms) then draw_room_id draws rooms else some id

-- The room that a new player is alone in.
abbrev pub new_room : String → String → ℕ → GameRoom
new_room room_id player p = record {
  id = room_id;
  sessions = (player, p) ∷ [];
  status = waiting;
  node_id = pos 0;
  ready_players = (player, false) ∷ [];
}

abbrev pub admitted : GameRoom → String → ℕ → GameRoom
admitted r player p = record r {
  sessions = insert player p r.sessions;
  ready_players = insert player false r.ready_players;
}

abbrev pub departed : GameRoom → String → GameRoom
departed r player = record r {
  sessions = erase player r.sessions;
  ready_players = erase player r.ready_players;
}

-- The test order of JoinRoom, once the room is known.
pub data JoinVerdict : Type 0 where
  admit already_in_room room_started room_full : JoinVerdict

unfoldable pub judge_join : GameRoom → String → JoinVerdict
judge_join r player =
    if is_some (lookup player r.sessions)
    then already_in_room
    else if not (is_waiting r.status)
    then room_started
    else if leb max_players_per_room (length r.sessions)
    then room_full
    else admit

-- FindSession
unfoldable pub find_session : Server → String → Option ℕ
find_session v uid = lookup uid v.all_sessions

-- RegisterSession
unfoldable pub register_session : Server → String → ℕ → Server
register_session v uid p = record v {
  manager = record v.manager { all_sessions = insert uid p v.all_sessions };
}

-- GetRooms, in the order in which the map is visited
unfoldable pub get_rooms : Server → List RoomInfo
get_rooms v =
    map (λ (e : String × GameRoom). record { room_id = e.0; is_full = leb 2 (length e.1.sessions) })
      v.rooms

module _ (env : Env) where
  -- CreateRoom
  unfoldable pub create_room : List String → ℕ → Server → Option (String × Server)
  create_room draws p v = elim (draw_room_id draws v.rooms) [
    | none ↦ none
    | some room_id ↦ some (
      room_id,
      record (set_rooms v (insert room_id (new_room room_id (player_id v p) p) v.rooms)) {
        heap =
            reply env.marshals p
              (response "create_room_res" code_success "房间创建成功"
                (Payload.object (("room_id", Value.text room_id) ∷ [])))
              (set_room_id v.heap p room_id);
      },
    )
  ]

  abbrev refuse_join : ℤ → String → ℕ → Server → Server
  refuse_join code msg p v = record v {
    heap = reply env.marshals p (response "join_room_res" code msg Payload.nil) v.heap;
  }

  unfoldable pub join_known :
      GameRoom → String → ℕ → Server → JoinVerdict → Server × (Bool × String)
  join_known r room_id p v already_in_room =
      (refuse_join code_send_duplicate "你已经在房间里了" p v, (false, "Duplicate cmd message"))
  join_known r room_id p v room_started =
      (refuse_join code_room_full "房间已开始或已结束" p v, (false, "Room started or finished"))
  join_known r room_id p v room_full =
      (refuse_join code_room_full "房间已满" p v, (false, "Room is full"))
  join_known r room_id p v admit =
      let r' = admitted r (player_id v p) p in
      let msg = str_append "玩家" (str_append (player_id v p) "加入了房间") in
      (
        record (set_rooms v (insert room_id r' v.rooms)) {
          heap =
              broadcast env.marshals (values r'.sessions)
                (response "join_room" code_success msg Payload.nil)
                (reply env.marshals p (response "join_room_res" code_success "成功加入房间" Payload.nil)
                  (set_room_id v.heap p room_id));
        },
        (true, ""),
      )

  -- JoinRoom
  unfoldable pub join_room : String → ℕ → Server → Server × (Bool × String)
  join_room room_id p v = elim (lookup room_id v.rooms) [
    | none ↦ (refuse_join code_room_not_exist "房间不存在,请检查房间编号" p v, (false, "Room does not exist"))
    | some r ↦ join_known r room_id p v (judge_join r (player_id v p))
  ]

  -- SyncRoomState
  unfoldable pub sync_room_state : ℕ → Server → Server
  sync_room_state p v = elim (lookup (v.heap.cell p).room_id v.rooms) [
    | none ↦ record v {
      heap = reply env.marshals p (response "reconnect_error" (pos 404) "房间已销毁" Payload.nil) v.heap;
    }
    | some r ↦ record v {
      heap =
          broadcast env.marshals (values r.sessions)
            (response "player_reconnect" code_success
              (str_append "玩家 " (str_append (player_id v p) " 重新连接"))
              (Payload.object (("uid", Value.text (player_id v p)) ∷ [])))
            (reply env.marshals p
              (response "reconnect_res" code_success "状态恢复成功"
                (Payload.reconnected (get_snapshot r v.heap)))
              v.heap);
    }
  ]
