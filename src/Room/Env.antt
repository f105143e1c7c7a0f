-- ===== src/Room/Env.antt =====
-- What internal/room calls and does not implement: encoding/json, hash/crc32, and the gRPC calls
-- of internal/rpc to the C++ engine. Each is a function of its arguments; a call that is repeated
-- also takes the number of the attempt, so that it may answer differently each time.
use pokemon_simulator_server.Base.{ℕ, String, Bool, Option, ℤ}
use pokemon_simulator_server.Protocol.{JsonObject, GameResponse, SelectPokemonRequest}
use pokemon_simulator_server.Room.GameRoom.{InitJson}

-- The answer of json.Unmarshal: JSON's null leaves a map nil.
pub data Parsed (A : Type 0) : Type 0 where
  parsed : A → Parsed A
  null : Parsed A
  invalid : String → Parsed A

pub data Marshalled : Type 0 where
  json : String → Marshalled
  unsupported : String → Marshalled

-- *rpc.RPCResponse with its error
pub data RpcOutcome : Type 0 where
  rpc_error : String → RpcOutcome
  rpc_response : ℤ → String → RpcOutcome

-- A call that was made to the C++ engine, with the client's handle.
pub data EngineCall : Type 0 where
  create_room_call : Option ℕ → String → String → EngineCall
  send_command_call : Option ℕ → String → String → String → EngineCall
  destroy_room_call : Option ℕ → String → EngineCall

pub record Env : Type 0 where
  pub crc32 : String → ℕ
  pub marshals : GameResponse → Bool
  pub marshal_init : InitJson → Marshalled
  pub marshal_object : JsonObject → Marshalled
  pub unmarshal_object : String → Parsed JsonObject
  pub unmarshal_select : String → Parsed SelectPokemonRequest
  pub valid_json : String → Bool
  pub call_create_room : Option ℕ → String → String → ℕ → RpcOutcome
  pub call_send_command : Option ℕ → String → String → String → RpcOutcome
  pub call_destroy_room : Option ℕ → String → ℕ → RpcOutcome
