-- ===== src/Room/Manager/Closing.antt =====
-- internal/room/manager.go: leaving and deleting rooms, and the requests to the C++ engine to destroy
-- them.
use pokemon_simulator_server.Base.{
  ℕ, zero, suc, ◌+◌, String, str_append, Bool, true, false, Option, none, some, List, [], ◌∷◌, ◌++◌,
  ℤ, pos, str_eq, string_eq, Map, values, lookup, insert, erase, is_some, length, nat_eq, not,
  if◌then◌else◌,
}
use pokemon_simulator_server.Engine.Instance.{EngineInstance, get_node_by_pod_index}
use pokemon_simulator_server.Protocol.{Payload, response, code_success, code_room_not_exist}
use pokemon_simulator_server.Room.Heap.{reply, broadcast}
use pokemon_simulator_server.Room.GameRoom.{GameRoom, finished, is_waiting, is_playing}
use pokemon_simulator_server.Room.Env.{
  Env, EngineCall, destroy_room_call, RpcOutcome, rpc_error, rpc_response,
}
use pokemon_simulator_server.Room.Manager.{Server, player_id, set_rooms, set_room_id, departed}

-- Whether an attempt to destroy a room succeeded.
abbrev pub is_ok : RpcOutcome → Bool
is_ok (rpc_error e) = false
is_ok (rpc_response (pos zero) message) = true
is_ok (rpc_response code message) = false

module _ (env : Env) where
  -- The attempts of sendDestroyRoomRequestSync from number `attempt`, `left` of them to go: whether
  -- one succeeded, and the calls made.
  unfoldable pub destroy_attempts : ℕ → ℕ → Option ℕ → String → Bool × List EngineCall
  destroy_attempts zero attempt client room_id = (false, [])
  destroy_attempts (suc left) attempt client room_id =
      let later = destroy_attempts left (attempt + 1) client room_id in
      if is_ok (env.call_destroy_room client room_id attempt)
      then (true, destroy_room_call client room_id ∷ [])
      else (later.0, destroy_room_call client room_id ∷ later.1)

  -- sendDestroyRoomRequestSync
  unfoldable pub send_destroy_room_request_sync :
      Option EngineInstance → String → ℤ → Bool × List EngineCall
  send_destroy_room_request_sync none room_id node_id = (false, [])
  send_destroy_room_request_sync (some e) room_id node_id = elim (get_node_by_pod_index e node_id) [
    | none ↦ (false, [])
    | some n ↦ destroy_attempts 3 1 n.client room_id
  ]

  -- sendDestroyRoomRequest: the one call that its goroutine makes.
  unfoldable pub send_destroy_room_request : Option EngineInstance → String → ℤ → List EngineCall
  send_destroy_room_request none room_id node_id = []
  send_destroy_room_request (some e) room_id node_id = elim (get_node_by_pod_index e node_id) [
    | none ↦ []
    | some n ↦ destroy_room_call n.client room_id ∷ []
  ]

  -- The room is removed from memory whether or not the engine destroyed it.
  unfoldable pub delete_known : Option EngineInstance → String → GameRoom → Server → Server
  delete_known eng room_id r v =
      if not (is_waiting r.status)
      then (let sent = send_destroy_room_request_sync eng room_id r.node_id in
          if sent.0
          then record (set_rooms v (erase room_id v.rooms)) { calls = v.calls ++ sent.1 }
          else record (set_rooms v (erase room_id v.rooms)) { calls = v.calls ++ sent.1 })
      else set_rooms v (erase room_id v.rooms)

  -- DeleteRoom
  unfoldable pub delete_room : Option EngineInstance → String → Server → Server
  delete_room eng room_id v = elim (lookup room_id v.rooms) [
    | none ↦ v
    | some r ↦ delete_known eng room_id r v
  ]

  -- The two messages of a player who leaves others behind; a running game is stopped.
  unfoldable pub leave_others : String → String → GameRoom → Server → Server
  leave_others room_id player r v =
      let left =
        broadcast env.marshals (values r.sessions)
          (response (str_append "Player Left! (playerID: " (str_append player ")")) code_success
            (str_append "玩家" (str_append player "已离开")) Payload.nil)
          v.heap in
      if is_playing r.status
      then record (set_rooms v (insert room_id (record r { status = finished }) v.rooms)) {
        heap =
            broadcast env.marshals (values r.sessions)
              (response "room_status_change" code_success "游戏因玩家离开而停止" Payload.nil) left;
      }
      else record v { heap = left }

  unfoldable pub leave_known : Option EngineInstance → String → GameRoom → ℕ → Server → Server
  leave_known eng room_id r p v =
      let r' = departed r (player_id v p) in
      let v' = record (set_rooms v (insert room_id r' v.rooms)) {
        heap = set_room_id v.heap p "";
      } in
      if nat_eq (length r'.sessions) 0
      then delete_room eng room_id v'
      else leave_others room_id (player_id v p) r' v'

  -- LeaveRoom
  unfoldable pub leave_room : Option EngineInstance → String → ℕ → Server → Server
  leave_room eng room_id p v = elim (lookup room_id v.rooms) [
    | none ↦ record v {
      heap =
          reply env.marshals p (response "leave_room_res" code_room_not_exist "房间不存在" Payload.nil)
            v.heap;
    }
    | some r ↦ leave_known eng room_id r p v
  ]

  -- DestroyAllRooms: one call for each room, in the order of the map.
  unfoldable pub destroy_calls : Option EngineInstance → Map String GameRoom → List EngineCall
  destroy_calls eng [] = []
  destroy_calls eng ((room_id, r) ∷ rooms) =
      send_destroy_room_request eng room_id r.node_id ++ destroy_calls eng rooms

  unfoldable pub destroy_all_rooms : Option EngineInstance → Server → Server
  destroy_all_rooms eng v = record (set_rooms v []) { calls = v.calls ++ destroy_calls eng v.rooms }

  unfoldable pub clean_up : Option EngineInstance → String → ℕ → Server → Server
  clean_up eng uid p v =
      let room_id = (v.heap.cell p).room_id in
      let v' = record v {
        manager = record v.manager { all_sessions = erase uid v.all_sessions };
      } in
      if str_eq room_id "" then v' else leave_room eng room_id p v'

  -- CleanUpIfStillOffline
  unfoldable pub clean_up_if_still_offline : Option EngineInstance → String → Server → Server
  clean_up_if_still_offline eng uid v = elim (lookup uid v.all_sessions) [
    | none ↦ v
    | some p ↦ if is_some (v.heap.cell p).conn then v else clean_up eng uid p v
  ]
