-- ===== src/Examples/Data.antt =====
-- The players, rooms, nodes and answers of the engine that the examples share.
use pokemon_simulator_server.Base.{
  ℕ, String, true, false, some, [], ◌∷◌, ℤ, pos, nat_eq, str_eq, Map, if◌then◌else◌,
}
use pokemon_simulator_server.Engine.Node.{EngineNode, new_node}
use pokemon_simulator_server.Engine.Instance.{EngineInstance}
use pokemon_simulator_server.Protocol.{
  Pokemon, PokemonStats, Ability, GameResponse, response, Payload,
}
use pokemon_simulator_server.Room.Session.{Session, new_session}
use pokemon_simulator_server.Room.Heap.{Heap}
use pokemon_simulator_server.Room.GameRoom.{GameRoom, waiting, playing}
use pokemon_simulator_server.Room.Env.{Env, json, parsed, rpc_error, rpc_response}
use pokemon_simulator_server.Room.Manager.{Server}

abbrev pub hash : String → ℕ
hash s = if str_eq s "node_1_0" then 3 else 7

-- An engine whose second attempts succeed.
abbrev pub env : Env
env = record {
  crc32 = hash;
  marshals = λ m. true;
  marshal_init = λ i. json "init";
  marshal_object = λ m. json "action";
  unmarshal_object = λ s. parsed [];
  unmarshal_select = λ s. parsed (record { pokemon = [] });
  valid_json = λ s. true;
  call_create_room = λ c r i n. if nat_eq n 2 then rpc_response (pos 0) "" else rpc_error "down";
  call_send_command = λ c r p a. rpc_response (pos 0) "{}";
  call_destroy_room = λ c r n. if nat_eq n 2 then rpc_response (pos 0) "" else rpc_error "down";
}

abbrev pub session_of : String → Session
session_of name = new_session (record { id = name; username = name }) (some 1)

-- ann, bob and eve under the pointers 0, 1 and from 2 on.
abbrev pub people : Heap
people = record {
  cell = λ p.
      if nat_eq p 0
      then session_of "ann"
      else if nat_eq p 1
      then session_of "bob"
      else session_of "eve";
  next = 3;
}

abbrev pub ann_waits : GameRoom
ann_waits = record {
  id = "r";
  sessions = ("ann", 0) ∷ [];
  status = waiting;
  node_id = pos 0;
  ready_players = ("ann", false) ∷ [];
}

abbrev pub two_wait : GameRoom
two_wait = record {
  id = "r";
  sessions = ("bob", 1) ∷ ("ann", 0) ∷ [];
  status = waiting;
  node_id = pos 0;
  ready_players = ("bob", true) ∷ ("ann", true) ∷ [];
}

abbrev pub two_play : GameRoom
two_play = record two_wait { status = playing }

abbrev pub server_with : Map String GameRoom → Server
server_with rooms = record {
  manager = record { rooms = rooms; all_sessions = [] };
  heap = people;
  calls = [];
}

abbrev pub hello : GameResponse
hello = response "hello" (pos 0) "hello" Payload.nil

-- A healthy node without rooms, one that is full, and one that is down.
abbrev pub idle_node : EngineNode
idle_node = record (new_node (pos 1) "cpp-1") { healthy = true; client = some 11; conn = some 1 }

abbrev pub full_node : EngineNode
full_node = record (new_node (pos 0) "cpp-0") {
  healthy = true;
  active_rooms = pos 10;
  client = some 10;
}

abbrev pub down_node : EngineNode
down_node = new_node (pos 2) "cpp-2"

abbrev pub engine_of : Map ℤ EngineNode → EngineInstance
engine_of nodes = record {
  replicas = pos 2;
  namespace = "battle";
  stateful_set_name = "cpp";
  headless_service_name = "cpp-headless";
  max_pod_index = pos 1;
  nodes = nodes;
}

abbrev pub engine : EngineInstance
engine = engine_of ((pos 0, full_node) ∷ (pos 1, idle_node) ∷ (pos 2, down_node) ∷ [])

-- The same nodes, visited the other way round.
abbrev pub engine_turned : EngineInstance
engine_turned = engine_of ((pos 0, full_node) ∷ (pos 2, down_node) ∷ (pos 1, idle_node) ∷ [])

abbrev zero_stats : PokemonStats
zero_stats = record {
  hp = pos 0;
  attack = pos 0;
  defense = pos 0;
  special_attack = pos 0;
  special_defense = pos 0;
  speed = pos 0;
}

abbrev pub pokemon_with : Ability → Pokemon
pokemon_with a = record {
  species_id = pos 25;
  level = pos 50;
  nature = pos 1;
  ability = a;
  item = pos 0;
  ivs = zero_stats;
  evs = zero_stats;
  moves = [];
}
