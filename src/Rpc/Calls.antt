-- ===== src/Rpc/Calls.antt =====
-- internal/rpc/client.go: the calls of the engine's gRPC interface. The generated client is a
-- parameter, and answers with an error or with the fields of its response.
use pokemon_simulator_server.Base.{String, ℤ}
use pokemon_simulator_server.Engine.Upkeep.{Heartbeat, beat, heartbeat_error}
use pokemon_simulator_server.Engine.Node.{HeartbeatStatus}
use pokemon_simulator_server.Room.Env.{RpcOutcome, rpc_error, rpc_response}

pub data Answer (A : Type 0) : Type 0 where
  failed : String → Answer A
  answered : A → Answer A

-- calc.RoomResponse and the like: the fields that are read
pub record CodeMessage : Type 0 where
  pub code : ℤ
  pub message : String

-- EngineClient, whose requests are given by their fields
pub record EngineClient : Type 0 where
  pub on_create_room : String → String → Answer CodeMessage
  pub on_send_command : String → String → String → Answer CodeMessage
  pub on_destroy_room : String → Answer CodeMessage
  pub on_get_heartbeat : Answer HeartbeatStatus

unfoldable pub to_outcome : Answer CodeMessage → RpcOutcome
to_outcome (failed err) = rpc_error err
to_outcome (answered r) = rpc_response r.code r.message

-- CallCreateRoom
unfoldable pub call_create_room : EngineClient → String → String → RpcOutcome
call_create_room client room_id init_json = to_outcome (client.on_create_room room_id init_json)

-- CallSendCommand
unfoldable pub call_send_command : EngineClient → String → String → String → RpcOutcome
call_send_command client room_id player_id action =
    to_outcome (client.on_send_command room_id player_id action)

-- CallDestroyRoom
unfoldable pub call_destroy_room : EngineClient → String → RpcOutcome
call_destroy_room client room_id = to_outcome (client.on_destroy_room room_id)

unfoldable pub to_heartbeat : Answer HeartbeatStatus → Heartbeat
to_heartbeat (failed err) = heartbeat_error err
to_heartbeat (answered status) = beat status

-- CallGetHeartbeat
unfoldable pub call_get_heartbeat : EngineClient → Heartbeat
call_get_heartbeat client = to_heartbeat client.on_get_heartbeat
