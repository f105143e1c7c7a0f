-- ===== src/Store.antt =====
-- internal/store/redis_store.go: RedisStore over the Redis commands that it sends. The client of
-- go-redis is the parameter `R`; json.Marshal and json.Unmarshal of a snapshot are `codec`.
pub mod Laws
pub mod Bindings
pub mod Listing
pub mod Pages
use pokemon_simulator_server.Base.{
  ℕ, zero, suc, String, str_append, str_eq, Bool, true, false, Option, none, some, List, [], ◌∷◌,
  ◌++◌, ℤ, pos, negsuc, int_eq, Map, if◌then◌else◌,
}
use pokemon_simulator_server.Protocol.{JsonObject}
use pokemon_simulator_server.Room.Env.{Marshalled, json, unsupported, Parsed, parsed, null, invalid}

pub record RoomSnapshot : Type 0 where
  pub room_id : String
  pub status : ℤ
  pub node_id : ℤ
  pub server_id : String
  pub players : List String
  pub ready_players : Map String Bool
  pub selected_pokemon : Map String (List JsonObject)
  pub updated_at : ℤ

-- var snapshot RoomSnapshot
abbrev pub zero_snapshot : RoomSnapshot
zero_snapshot = record {
  room_id = "";
  status = pos 0;
  node_id = pos 0;
  server_id = "";
  players = [];
  ready_players = [];
  selected_pokemon = [];
  updated_at = pos 0;
}

-- RemainingTTL is kept as the duration in nanoseconds.
pub record DebugRoomInfo : Type 0 where
  pub snapshot : RoomSnapshot
  pub remaining_ttl : ℤ
  pub is_persistent : Bool

-- The reply to GET: redis.Nil is the error for a key that is not there.
pub data Reply : Type 0 where
  value : String → Reply
  redis_nil : Reply
  get_failed : String → Reply

pub data ScanReply : Type 0 where
  page : List String → ℕ → ScanReply
  scan_failed : String → ScanReply

-- The commands of the client. A write answers with the new state and its error.
pub record Redis : Type 1 where
  pub State : Type 0
  pub set : String → String → State → State × Option String
  pub del : String → State → State × Option String
  pub get : String → State → Reply
  pub scan : ℕ → State → ScanReply
  pub ttl : String → State → ℤ

pub record Codec : Type 0 where
  pub marshal : RoomSnapshot → Marshalled
  pub unmarshal : String → Parsed RoomSnapshot

pub data StoreError : Type 0 where
  message : String → StoreError
  not_found : StoreError

pub data Loaded (A : Type 0) : Type 0 where
  loaded : A → Loaded A
  load_error : StoreError → Loaded A

-- roomKey
unfoldable pub room_key : String → String
room_key room_id = str_append "pokemon:room:" room_id

-- sessionKey
unfoldable pub session_key : String → String
session_key user_id = str_append "session:" user_id

-- The error of a write, wrapped.
abbrev pub wrapped : String → Option String → Option StoreError
wrapped what none = none
wrapped what (some err) = some (message (str_append what err))

-- Ping, by the answer of the client
unfoldable pub ping : Option String → Option StoreError
ping answer = wrapped "redis ping failed: " answer

pub data Opened (A : Type 0) : Type 0 where
  opened : A → Opened A
  refused : StoreError → Opened A

-- NewRedisStore: the client that was made, unless it does not answer the ping.
unfoldable pub new_redis_store : {A : Type 0} → A → Option String → Opened A
unfolding ping
new_redis_store client answer = elim (ping answer) [ none ↦ opened client | some err ↦ refused err ]

-- The snapshot that is written: without a time it gets the present one.
abbrev pub stamped : RoomSnapshot → ℤ → RoomSnapshot
stamped snapshot now =
    if int_eq snapshot.updated_at (pos 0) then record snapshot { updated_at = now } else snapshot

-- What json.Unmarshal leaves in the snapshot: null leaves it as it was.
unfoldable pub decode : String → Parsed RoomSnapshot → Loaded RoomSnapshot
decode what (parsed snapshot) = loaded snapshot
decode what null = loaded zero_snapshot
decode what (invalid err) = load_error (message (str_append what err))

module _ (R : Redis) (codec : Codec) where
  unfoldable pub write_snapshot : String → Marshalled → R.State → R.State × Option StoreError
  write_snapshot room_id (unsupported err) s =
      (s, some (message (str_append "marshal room snapshot failed: " err)))
  write_snapshot room_id (json payload) s =
      let written = R.set (room_key room_id) payload s in
      (written.0, wrapped "save room snapshot failed: " written.1)

  -- SaveRoomSnapshot
  unfoldable pub save_room_snapshot : RoomSnapshot → ℤ → R.State → R.State × Option StoreError
  save_room_snapshot snapshot now s =
      if str_eq snapshot.room_id ""
      then (s, some (message "room_id is required"))
      else write_snapshot snapshot.room_id (codec.marshal (stamped snapshot now)) s

  unfoldable pub read_snapshot : Reply → Loaded RoomSnapshot
  read_snapshot redis_nil = load_error not_found
  read_snapshot (get_failed err) =
      load_error (message (str_append "load room snapshot failed: " err))
  read_snapshot (value raw) = decode "unmarshal room snapshot failed: " (codec.unmarshal raw)

  -- LoadRoomSnapshot
  unfoldable pub load_room_snapshot : String → R.State → Loaded RoomSnapshot
  load_room_snapshot room_id s =
      if str_eq room_id ""
      then load_error (message "room_id is required")
      else read_snapshot (R.get (room_key room_id) s)

module _ (R : Redis) where
  -- DeleteRoomSnapshot
  unfoldable pub delete_room_snapshot : String → R.State → R.State × Option StoreError
  delete_room_snapshot room_id s =
      let deleted = R.del (room_key room_id) s in
      if str_eq room_id ""
      then (s, some (message "room_id is required"))
      else (deleted.0, wrapped "delete room snapshot failed: " deleted.1)

  -- SaveSessionBinding
  unfoldable pub save_session_binding : String → String → R.State → R.State × Option StoreError
  save_session_binding user_id room_id s =
      let written = R.set (session_key user_id) room_id s in
      if str_eq user_id ""
      then (s, some (message "user_id is required"))
      else if str_eq room_id ""
      then (s, some (message "room_id is required"))
      else (written.0, wrapped "save session binding failed: " written.1)

  unfoldable pub read_binding : Reply → Loaded String
  read_binding redis_nil = load_error not_found
  read_binding (get_failed err) =
      load_error (message (str_append "load session binding failed: " err))
  read_binding (value room_id) = loaded room_id

  -- LoadSessionBinding
  unfoldable pub load_session_binding : String → R.State → Loaded String
  load_session_binding user_id s =
      if str_eq user_id ""
      then load_error (message "user_id is required")
      else read_binding (R.get (session_key user_id) s)

  -- DeleteSessionBinding
  unfoldable pub delete_session_binding : String → R.State → R.State × Option StoreError
  delete_session_binding user_id s =
      let deleted = R.del (session_key user_id) s in
      if str_eq user_id ""
      then (s, some (message "user_id is required"))
      else (deleted.0, wrapped "delete session binding failed: " deleted.1)
