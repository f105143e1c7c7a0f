-- ===== src/Engine/Node.antt =====
-- internal/engine/manager.go: EngineNode, its status snapshot and its methods. The mutexes make
-- each method one atomic step. A connection and its client are handles; time is an argument.
use pokemon_simulator_server.Base.{
  ℕ, ◌+◌, String, Bool, true, false, ◌&&◌, ◌||◌, Option, none, some, ℤ, pos, ltb, leb, not, is_some,
  str_eq, if◌then◌else◌,
}

pub record EngineNode : Type 0 where
  pub pod_index : ℤ
  pub pod_name : String
  pub addr : String
  pub healthy : Bool
  pub last_error : String
  pub last_heartbeat : ℕ
  pub active_rooms : ℤ  -- int32
  pub cpu_usage : ℕ  -- float32, as its bit pattern
  pub memory_used : ℕ  -- uint64
  pub max_capacity : ℤ  -- int32
  pub server_id : String
  pub conn : Option ℕ
  pub client : Option ℕ
  pub reconnecting : Bool
  pub reconnect_failures : ℕ
  pub last_reconnect_failure : ℕ

pub record EngineNodeStatus : Type 0 where
  pub pod_index : ℤ
  pub pod_name : String
  pub addr : String
  pub healthy : Bool
  pub last_error : String
  pub last_heartbeat : ℕ
  pub active_rooms : ℤ
  pub cpu_usage : ℕ
  pub memory_used : ℕ
  pub max_capacity : ℤ
  pub server_id : String

-- rpc.HeartbeatStatus
pub record HeartbeatStatus : Type 0 where
  pub code : ℤ
  pub active_rooms : ℤ
  pub cpu_usage : ℕ
  pub memory_used : ℕ
  pub max_capacity : ℤ
  pub server_id : String

-- &EngineNode{PodIndex: podIndex, PodName: podName}
abbrev pub new_node : ℤ → String → EngineNode
new_node i name = record {
  pod_index = i;
  pod_name = name;
  addr = "";
  healthy = false;
  last_error = "";
  last_heartbeat = 0;
  active_rooms = pos 0;
  cpu_usage = 0;
  memory_used = 0;
  max_capacity = pos 0;
  server_id = "";
  conn = none;
  client = none;
  reconnecting = false;
  reconnect_failures = 0;
  last_reconnect_failure = 0;
}

-- `x < 70.0` on the bit pattern of an IEEE 754 single: 0x428c0000 is 70, the patterns from
-- 0x80000000 to 0xff800000 are the negative numbers down to minus infinity, and no NaN passes.
unfoldable pub lt_70 : ℕ → Bool
lt_70 x = ltb x 0x428c0000 || (leb 0x80000000 x && leb x 0xff800000)

unfoldable pub is_connected : EngineNode → Bool
is_connected n = is_some n.conn && is_some n.client

unfoldable pub replace_connection : EngineNode → String → ℕ → ℕ → ℕ → EngineNode × Option ℕ
replace_connection n addr conn client now = (
  record n {
    addr = addr;
    conn = some conn;
    client = some client;
    healthy = true;
    last_error = "";
    last_heartbeat = now;
  },
  n.conn,
)

-- n.ServerID != "" && n.ServerID != hb.ServerID
abbrev pub server_id_changed : EngineNode → HeartbeatStatus → Bool
server_id_changed n hb = not (str_eq n.server_id "") && not (str_eq n.server_id hb.server_id)

unfoldable pub mark_healthy : EngineNode → HeartbeatStatus → ℕ → EngineNode × Bool
mark_healthy n hb now = (
  record n {
    healthy = true;
    last_error = "";
    last_heartbeat = now;
    active_rooms = hb.active_rooms;
    cpu_usage = hb.cpu_usage;
    memory_used = hb.memory_used;
    max_capacity = hb.max_capacity;
    server_id = hb.server_id;
    reconnect_failures = if server_id_changed n hb then 0 else n.reconnect_failures;
  },
  server_id_changed n hb,
)

unfoldable pub mark_unhealthy : EngineNode → String → EngineNode
mark_unhealthy n reason = record n { healthy = false; last_error = reason }

unfoldable pub snapshot : EngineNode → EngineNodeStatus
snapshot n = record {
  pod_index = n.pod_index;
  pod_name = n.pod_name;
  addr = n.addr;
  healthy = n.healthy;
  last_error = n.last_error;
  last_heartbeat = n.last_heartbeat;
  active_rooms = n.active_rooms;
  cpu_usage = n.cpu_usage;
  memory_used = n.memory_used;
  max_capacity = n.max_capacity;
  server_id = n.server_id;
}

unfoldable pub close_conn : EngineNode → EngineNode × Option ℕ
close_conn n = (record n { conn = none; client = none }, n.conn)

unfoldable pub increment_reconnect_failures : EngineNode → ℕ → EngineNode
increment_reconnect_failures n now = record n {
  reconnect_failures = n.reconnect_failures + 1;
  last_reconnect_failure = now;
}

unfoldable pub reset_reconnect_failures : EngineNode → EngineNode
reset_reconnect_failures n = record n { reconnect_failures = 0 }
