-- ===== src/Engine/Connect.antt =====
-- internal/engine/manager.go: connecting to a pod and reconnecting to it. What grpc.DialContext
-- answers is an argument: `none` is an error, and a connection is a handle. The goroutine of
-- attemptReconnectLoop runs one turn of its loop at a time.
pub mod Backoff
use pokemon_simulator_server.Base.{
  ℕ, zero, suc, ◌+◌, ◌*◌, String, str_append, str_eq, Bool, true, false, ◌&&◌, Option, none, some,
  List, [], ◌∷◌, ◌++◌, ℤ, pos, int_eq, integer_eq, lookup, ltb, if◌then◌else◌,
}
use pokemon_simulator_server.Configs.{cpp_start_port}
use pokemon_simulator_server.Engine.Node.{EngineNode, new_node, replace_connection}
use pokemon_simulator_server.Engine.Instance.{EngineInstance, get_node}
use pokemon_simulator_server.Engine.Upkeep.{
  Cluster, put_node, record_reconnect_failure, reset_reconnect_failures_of,
}
use pokemon_simulator_server.Rpc.Ring.{itoa, register_node}

-- The process environment, with strings.TrimSpace applied: an unset variable is empty.
abbrev pub Environment : Type 0
Environment = String → String

-- getEnvString
unfoldable pub get_env_string : Environment → String → String → String
get_env_string env key default_val = if str_eq (env key) "" then default_val else env key

-- getEnvInt, where `atoi` is strconv.Atoi
unfoldable pub get_env_int : Environment → (String → Option ℤ) → String → ℤ → ℤ
get_env_int env atoi key default_val =
    if str_eq (env key) ""
    then default_val
    else elim (atoi (env key)) [ none ↦ default_val | some n ↦ n ]

abbrev pub pod_name : EngineInstance → ℤ → String
pod_name e i = str_append e.stateful_set_name (str_append "-" (itoa i))

-- buildPodDNSAddr
unfoldable pub build_pod_dns_addr : Environment → EngineInstance → ℤ → String
build_pod_dns_addr env e i = str_append (pod_name e i) (
    str_append "." (
      str_append e.headless_service_name (
        str_append "." (
          str_append e.namespace (
            str_append ".svc.cluster.local:"
              (get_env_string env "K8S_ENGINE_PORT" (itoa (pos cpp_start_port))))))))

abbrev pub to_list : Option ℕ → List ℕ
to_list none = []
to_list (some c) = c ∷ []

-- The error of reconnect, or success.
pub data ReconnectResult : Type 0 where
  reconnected reconnect_in_progress reconnect_scheduled reconnect_no_pod : ReconnectResult

-- node.reconnecting = b
abbrev pub set_reconnecting : ℤ → EngineNode → Bool → Cluster → Cluster
set_reconnecting i n b c = put_node c i (record n { reconnecting = b })

-- node.reconnecting = false, for the node that the map holds under this index now
unfoldable pub clear_reconnecting : ℤ → Cluster → Cluster
clear_reconnecting i c = elim (get_node c.instance_of i) [
  | none ↦ c
  | some n ↦ set_reconnecting i n false c
]

-- The node under this index, or a new one
abbrev pub node_or_new : EngineInstance → ℤ → EngineNode
node_or_new e i = elim (lookup i e.nodes) [ none ↦ new_node i (pod_name e i) | some n ↦ n ]

-- `new_client` is rpc.NewEngineClient.
module _ (crc32 : String → ℕ) (new_client : ℕ → ℕ) where
  -- The node gets the connection and is registered with rpc.Mgr.
  unfoldable pub register_pod : ℤ → String → EngineNode → ℕ → ℕ → Cluster → Cluster
  register_pod i addr n conn now c =
      let replaced = replace_connection n addr conn (new_client conn) now in
      record (put_node c i replaced.0) {
        mgr = register_node crc32 c.mgr i addr (new_client conn);
        closed = c.closed ++ to_list replaced.1;
      }

  -- connectAndRegisterPod: whether it succeeded.
  unfoldable pub connect_and_register_pod : ℤ → String → Option ℕ → ℕ → Cluster → Cluster × Bool
  connect_and_register_pod i addr none now c = (c, false)
  connect_and_register_pod i addr (some conn) now c = (
    reset_reconnect_failures_of i (register_pod i addr (node_or_new c.instance_of i) conn now c),
    true,
  )

  -- reconnect, once the node is marked: a failure launches the goroutine.
  unfoldable pub reconnect_marked : ℤ → String → Option ℕ → ℕ → Cluster → Cluster × ReconnectResult
  reconnect_marked i addr dialled now c =
      let tried = connect_and_register_pod i addr dialled now c in
      if tried.1
      then (clear_reconnecting i tried.0, reconnected)
      else (record tried.0 { loops = tried.0.loops ++ ((i, addr) ∷ []) }, reconnect_scheduled)

  -- reconnect
  unfoldable pub reconnect : ℤ → String → Option ℕ → ℕ → Cluster → Cluster × ReconnectResult
  reconnect i addr dialled now c = elim (get_node c.instance_of i) [
    | none ↦ (c, reconnect_no_pod)
    | some n ↦
        if n.reconnecting
        then (c, reconnect_in_progress)
        else reconnect_marked i addr dialled now (set_reconnecting i n true c)
  ]

  -- One turn of attemptReconnectLoop, and whether the loop has ended. A cancelled context ends it.
  unfoldable pub attempt_reconnect : ℤ → String → Bool → Option ℕ → ℕ → Cluster → Cluster × Bool
  attempt_reconnect i addr cancelled dialled now c =
      let tried = connect_and_register_pod i addr dialled now c in
      if cancelled
      then (clear_reconnecting i c, true)
      else if tried.1
      then (clear_reconnecting i (reset_reconnect_failures_of i tried.0), true)
      else (record_reconnect_failure crc32 i now tried.0, false)

-- The sleep after a failed turn, in seconds: it starts at one, is doubled each time, and stays at
-- thirty.
unfoldable pub next_backoff : ℕ → ℕ
next_backoff b = if ltb 30 (b * 2) then 30 else b * 2

-- The sleep after the first failed turn and `n` further ones.
unfoldable pub backoff : ℕ → ℕ
backoff zero = 1
backoff (suc n) = next_backoff (backoff n)
