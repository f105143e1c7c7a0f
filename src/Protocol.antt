-- ===== src/Protocol.antt =====
-- internal/protocol/msg.go and internal/model/player_model.go: codes, requests and responses.
-- A response is kept as the value that json.Marshal is given.
use pokemon_simulator_server.Base.{String, Bool, List, ℤ, pos, Map}
use pokemon_simulator_server.Engine.Instance.{EngineStatus}

abbrev pub code_success : ℤ
code_success = pos 0

abbrev pub code_server_err : ℤ
code_server_err = pos 10001

abbrev pub code_send_invalid : ℤ
code_send_invalid = pos 20001

abbrev pub code_send_duplicate : ℤ
code_send_duplicate = pos 20002

abbrev pub code_data_invalid : ℤ
code_data_invalid = pos 20003

abbrev pub code_cpp_rpc_error : ℤ
code_cpp_rpc_error = pos 30001

abbrev pub code_room_not_exist : ℤ
code_room_not_exist = pos 40001

abbrev pub code_room_full : ℤ
code_room_full = pos 40002

abbrev pub code_room_started : ℤ
code_room_started = pos 40003

abbrev pub code_player_not_in_room : ℤ
code_player_not_in_room = pos 40005

-- model.Player
pub record Player : Type 0 where
  pub id : String
  pub username : String

-- What an `interface{}` value of a JSON object may be in this program: the shapes that the code
-- builds, and any other JSON text.
pub data Value : Type 0 where
  bool : Bool → Value
  int : ℤ → Value
  text : String → Value
  int_list : List ℤ → Value
  int_map : Map String ℤ → Value
  other_json : String → Value

-- map[string]interface{}
abbrev pub JsonObject : Type 0
JsonObject = Map String Value

pub record PokemonStats : Type 0 where
  pub hp : ℤ
  pub attack : ℤ
  pub defense : ℤ
  pub special_attack : ℤ
  pub special_defense : ℤ
  pub speed : ℤ

-- The `any` of Pokemon.Ability: a float64, given by what int() makes of it, or no number.
pub data Ability : Type 0 where
  float64 : ℤ → Ability
  not_a_number : Ability

pub record Pokemon : Type 0 where
  pub species_id : ℤ
  pub level : ℤ
  pub nature : ℤ
  pub ability : Ability
  pub item : ℤ
  pub ivs : PokemonStats
  pub evs : PokemonStats
  pub moves : List ℤ

pub record SelectPokemonRequest : Type 0 where
  pub pokemon : List Pokemon

pub record ReconnectResponse : Type 0 where
  pub room_id : String
  pub room_state : ℤ
  pub players : List Player
  pub game_data : String

-- room.RoomInfo of internal/room/manager.go
pub record RoomInfo : Type 0 where
  pub room_id : String
  pub is_full : Bool

-- The values that the code passes as `data`.
pub data Payload : Type 0 where
  nil : Payload
  object : JsonObject → Payload
  raw_json : String → Payload
  rooms : List RoomInfo → Payload
  reconnected : ReconnectResponse → Payload
  cluster : EngineStatus → Payload

pub record GameResponse : Type 0 where
  pub cmd : String
  pub code : ℤ
  pub msg : String
  pub payload : Payload

pub record GameRequest : Type 0 where
  pub cmd : String
  pub body : String  -- json.RawMessage

abbrev pub response : String → ℤ → String → Payload → GameResponse
response cmd code msg payload = record { cmd = cmd; code = code; msg = msg; payload = payload }
