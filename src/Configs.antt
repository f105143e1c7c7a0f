-- ===== src/Configs.antt =====
-- configs/config.go: the constants that the modelled code reads, and the settings of Redis.
use pokemon_simulator_server.Base.{
  ℕ, ◌*◌, String, str_eq, Option, none, some, ℤ, pos, if◌then◌else◌,
}

abbrev pub cpp_start_port : ℕ
cpp_start_port = 50051

abbrev pub cpp_max_instance : ℕ
cpp_max_instance = 10

abbrev pub match_queue_size : ℕ
match_queue_size = 50

abbrev pub max_players_per_room : ℕ
max_players_per_room = 2

pub record RedisConfig : Type 0 where
  pub addr : String
  pub password : String
  pub db : ℤ
  pub ttl : ℤ  -- in nanoseconds

abbrev pub default_redis : RedisConfig
default_redis = record {
  addr = "127.0.0.1:6379";
  password = "";
  db = pos 0;
  ttl = pos (7200 * 1000000000);
}

-- A setting whose variable is set and can be read, or what it was before.
unfoldable pub read_or {ℓ} : {A : Type ℓ} → (String → Option A) → String → A → A
read_or parse text before =
    if str_eq text "" then before else elim (parse text) [ none ↦ before | some a ↦ a ]

-- init, over os.Getenv, strconv.Atoi and time.ParseDuration
unfoldable pub init_redis_config :
    (String → String) → (String → Option ℤ) → (String → Option ℤ) → RedisConfig
init_redis_config getenv atoi parse_duration = record {
  addr = read_or (λ text. some text) (getenv "REDIS_ADDR") default_redis.addr;
  password = read_or (λ text. some text) (getenv "REDIS_PASSWORD") default_redis.password;
  db = read_or atoi (getenv "REDIS_DB") default_redis.db;
  ttl = read_or parse_duration (getenv "REDIS_TTL") default_redis.ttl;
}
