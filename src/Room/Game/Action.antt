-- ===== src/Room/Game/Action.antt =====
-- internal/room/game.go: forwardBattleAction and its callers. `none` is a panic: the code writes
-- to a nil map when the action is JSON's null.
use pokemon_simulator_server.Base.{
  ℕ, String, str_append, Bool, false, Option, none, some, [], ◌∷◌, ◌++◌, ℤ, pos, str_eq, string_eq,
  lookup, insert, not, is_some, zero, if◌then◌else◌,
}
use pokemon_simulator_server.Engine.Instance.{EngineInstance, get_node_by_pod_index}
use pokemon_simulator_server.Protocol.{
  Payload, Value, JsonObject, response, code_success, code_data_invalid, code_cpp_rpc_error,
  code_room_not_exist, code_room_started, code_player_not_in_room,
}
use pokemon_simulator_server.Room.GameRoom.{GameRoom, is_playing, battle_side_for_player}
use pokemon_simulator_server.Room.Env.{
  Env, Parsed, parsed, null, invalid, json, unsupported, send_command_call, RpcOutcome, rpc_error,
  rpc_response,
}
use pokemon_simulator_server.Room.Manager.{Server, player_id}
use pokemon_simulator_server.Room.Game.{broadcast_to_room, send_to}

pub data Injected : Type 0 where
  action_text : String → Injected
  inject_error : String → Injected
  inject_panic : Injected

-- turnResult["waiting"].(bool)
unfoldable pub is_waiting_turn : JsonObject → Bool
is_waiting_turn m = elim (lookup "waiting" m) [ some (Value.bool b) ↦ b | _ ↦ false ]

-- The message of the engine as an object, or under "raw".
unfoldable pub turn_result : String → Parsed JsonObject → JsonObject
turn_result message (parsed m) = m
turn_result message null = []
turn_result message (invalid err) = ("raw", Value.text message) ∷ []

-- The keys that a waiting turn gets.
unfoldable pub completed : Option String → String → JsonObject → JsonObject
completed none player m = insert "completed_player_id" (Value.text player) m
completed (some side) player m =
    insert "completed_player_id" (Value.text player) (insert "completed_side" (Value.text side) m)

module _ (env : Env) where
  unfoldable pub inject_parsed : String → Parsed JsonObject → Injected
  inject_parsed side (invalid err) = inject_error err
  inject_parsed side null = inject_panic
  inject_parsed side (parsed action) =
      elim (env.marshal_object (insert "side" (Value.text side) action)) [
        | json text ↦ action_text text
        | unsupported err ↦ inject_error err
      ]

  -- injectBattleSide
  unfoldable pub inject_battle_side : GameRoom → String → String → Injected
  inject_battle_side r raw player = elim (battle_side_for_player r player) [
    | none ↦ inject_error "无法识别玩家 side"
    | some side ↦ inject_parsed side (env.unmarshal_object raw)
  ]

  abbrev answer : ℤ → String → Payload → ℕ → Server → Server
  answer code msg payload p v = send_to env p (response "battle_action_res" code msg payload) v

  -- What is sent when the engine has taken the action.
  unfoldable pub push_turn : GameRoom → ℕ → JsonObject → Server → Server
  push_turn r p m v =
      let m' = completed (battle_side_for_player r (player_id v p)) (player_id v p) m in
      if is_waiting_turn m
      then broadcast_to_room env r
          (response "battle_state_push" code_success "有玩家已提交动作，等待另一方" (Payload.object m'))
          (answer code_success "动作已提交，等待对手" (Payload.object m') p v)
      else broadcast_to_room env r
          (response "battle_state_push" code_success "对战状态更新" (Payload.object m))
          (answer code_success "动作已提交" (Payload.object m) p v)

  unfoldable pub answer_outcome : GameRoom → ℕ → RpcOutcome → Server → Server
  answer_outcome r p (rpc_error err) v =
      answer code_cpp_rpc_error (str_append "C++ 调用失败: " err) Payload.nil p v
  answer_outcome r p (rpc_response (pos zero) message) v =
      push_turn r p (turn_result message (env.unmarshal_object message)) v
  answer_outcome r p (rpc_response code message) v = answer code message Payload.nil p v

  unfoldable pub call_engine : EngineInstance → GameRoom → ℕ → String → Server → Server
  call_engine e r p action v = elim (get_node_by_pod_index e r.node_id) [
    | none ↦ answer code_cpp_rpc_error "目标 C++ 节点不可用" Payload.nil p v
    | some n ↦
        answer_outcome r p (env.call_send_command n.client r.id (player_id v p) action) (record v {
          calls = v.calls ++ (send_command_call n.client r.id (player_id v p) action ∷ []);
        })
  ]

  unfoldable pub forward_injected :
      EngineInstance → GameRoom → ℕ → Injected → Server → Option Server
  forward_injected e r p (action_text action) v = some (call_engine e r p action v)
  forward_injected e r p (inject_error err) v =
      some (answer code_data_invalid (str_append "action 处理失败: " err) Payload.nil p v)
  forward_injected e r p inject_panic v = none

  -- forwardBattleAction
  unfoldable pub forward_battle_action :
      EngineInstance → GameRoom → ℕ → String → Server → Option Server
  forward_battle_action e r p raw v =
      if not (is_some (lookup (player_id v p) r.sessions))
      then some (answer code_player_not_in_room "你不在该房间中" Payload.nil p v)
      else if not (is_playing r.status)
      then some (answer code_room_started "房间当前不在对战中" Payload.nil p v)
      else if str_eq raw ""
      then some (answer code_data_invalid "action 不能为空" Payload.nil p v)
      else if not (env.valid_json raw)
      then some (answer code_data_invalid "action 必须是合法 JSON" Payload.nil p v)
      else forward_injected e r p (inject_battle_side r raw (player_id v p)) v

  unfoldable pub battle_action_in : EngineInstance → String → ℕ → String → Server → Option Server
  battle_action_in e room_id p raw v = elim (lookup room_id v.rooms) [
    | none ↦ some (answer code_room_not_exist "房间不存在" Payload.nil p v)
    | some r ↦ forward_battle_action e r p raw v
  ]

  -- HandleBattleAction, and HandleBattleActionAndPersist, which does nothing more
  unfoldable pub handle_battle_action : EngineInstance → ℕ → String → Server → Option Server
  handle_battle_action e p raw v =
      if str_eq (v.heap.cell p).room_id ""
      then some (answer code_room_not_exist "当前不在房间中" Payload.nil p v)
      else battle_action_in e (v.heap.cell p).room_id p raw v
