-- ===== src/Config.antt =====
-- src/config.rs: the configuration as it is read from a file, with its defaults. TOML, YAML and the
-- file system are parameters.
pub mod Loading
use xprotocol.Prelude.{ℕ, ◌*◌, String, Bool, true, Option, none, some, List, []}
use xprotocol.Error.{IoResult, io_ok, io_err}

pub record ServerConfig : Type 0 where
  pub path : Option String
  pub addr : Option String
  pub request_timeout_secs : ℕ
  pub idle_timeout_secs : ℕ
  pub max_request_size : ℕ
  pub max_connections : ℕ
  pub enable_streaming : Bool
  pub enable_schema_introspection : Bool
  pub webhook_url : Option String

abbrev pub default_server : ServerConfig
default_server = record {
  path = none;
  addr = none;
  request_timeout_secs = 30;
  idle_timeout_secs = 300;
  max_request_size = 16 * 1024 * 1024;
  max_connections = 10000;
  enable_streaming = true;
  enable_schema_introspection = true;
  webhook_url = none;
}

pub record ClientConfig : Type 0 where
  pub connect_timeout_secs : ℕ
  pub request_timeout_secs : ℕ
  pub idle_timeout_secs : ℕ
  pub heartbeat_interval_secs : ℕ
  pub max_reconnect_attempts : ℕ
  pub reconnect_delay_secs : ℕ

abbrev pub default_client : ClientConfig
default_client = record {
  connect_timeout_secs = 5;
  request_timeout_secs = 30;
  idle_timeout_secs = 300;
  heartbeat_interval_secs = 30;
  max_reconnect_attempts = 5;
  reconnect_delay_secs = 1;
}

pub record PoolConfig : Type 0 where
  pub max_concurrent : ℕ
  pub max_pool_size : ℕ
  pub connection_timeout_secs : ℕ
  pub request_timeout_secs : ℕ
  pub circuit_breaker_threshold : ℕ
  pub circuit_breaker_timeout_secs : ℕ

abbrev pub default_pool : PoolConfig
default_pool = record {
  max_concurrent = 100;
  max_pool_size = 100;
  connection_timeout_secs = 5;
  request_timeout_secs = 30;
  circuit_breaker_threshold = 5;
  circuit_breaker_timeout_secs = 30;
}

pub record ApiKeyEntry : Type 0 where
  pub key : String
  pub client_id : String
  pub permissions : List String

pub record TokenEntry : Type 0 where
  pub token : String
  pub client_id : String
  pub permissions : List String
  pub ttl_secs : Option ℕ

pub record RateLimitConfig : Type 0 where
  pub enabled : Bool
  pub max_requests : ℕ
  pub window_secs : ℕ

abbrev pub default_rate_limit : RateLimitConfig
default_rate_limit = record { enabled = true; max_requests = 1000; window_secs = 60 }

pub record SecurityConfig : Type 0 where
  pub auth_type : Option String
  pub api_keys : List ApiKeyEntry
  pub tokens : List TokenEntry
  pub rate_limit : RateLimitConfig

abbrev pub default_security : SecurityConfig
default_security = record {
  auth_type = none;
  api_keys = [];
  tokens = [];
  rate_limit = default_rate_limit;
}

pub record LoggingConfig : Type 0 where
  pub level : String
  pub format : String
  pub output : String

abbrev pub default_logging : LoggingConfig
default_logging = record { level = "info"; format = "json"; output = "stdout" }

-- a threshold is an f64
pub record AlertRuleConfig (F64 : Type 0) : Type 0 where
  pub name : String
  pub metric : String
  pub condition : String
  pub threshold : F64

pub record MonitoringConfig (F64 : Type 0) : Type 0 where
  pub enabled : Bool
  pub metrics_port : Option ℕ
  pub alert_rules : List (AlertRuleConfig F64)

abbrev pub default_monitoring : {F64 : Type 0} → MonitoringConfig F64
default_monitoring = record { enabled = true; metrics_port = some 9090; alert_rules = [] }

pub record Config (F64 : Type 0) : Type 0 where
  pub server : ServerConfig
  pub client : ClientConfig
  pub pool : PoolConfig
  pub security : SecurityConfig
  pub logging : LoggingConfig
  pub monitoring : MonitoringConfig F64

abbrev pub default_config : {F64 : Type 0} → Config F64
default_config = record {
  server = default_server;
  client = default_client;
  pool = default_pool;
  security = default_security;
  logging = default_logging;
  monitoring = default_monitoring;
}

pub data ConfigError : Type 0 where
  io_error parse_error serialize_error : String → ConfigError

pub data Loaded (A : Type 0) : Type 0 where
  loaded : A → Loaded A
  not_loaded : ConfigError → Loaded A

abbrev pub map_err : {A : Type 0} → (String → ConfigError) → IoResult A → Loaded A
map_err f (io_ok a) = loaded a
map_err f (io_err e) = not_loaded (f e)

-- the crates toml and serde_yaml, and the file system
pub record Formats (F64 : Type 0) : Type 1 where
  pub read_to_string : String → IoResult String
  pub parse_toml : String → IoResult (Config F64)
  pub print_toml : Config F64 → IoResult String
  pub parse_yaml : String → IoResult (Config F64)
  pub print_yaml : Config F64 → IoResult String

module _ {F64 : Type 0} (f : Formats F64) where
  unfoldable pub from_toml : String → Loaded (Config F64)
  from_toml content = map_err parse_error (f.parse_toml content)

  unfoldable pub from_yaml : String → Loaded (Config F64)
  from_yaml content = map_err parse_error (f.parse_yaml content)

  unfoldable pub to_toml : Config F64 → Loaded String
  to_toml c = map_err serialize_error (f.print_toml c)

  unfoldable pub to_yaml : Config F64 → Loaded String
  to_yaml c = map_err serialize_error (f.print_yaml c)

  abbrev pub from_content : IoResult String → Loaded (Config F64)
  from_content (io_ok content) = from_toml content
  from_content (io_err e) = not_loaded (io_error e)

  unfoldable pub from_file : String → Loaded (Config F64)
  unfolding from_toml
  from_file path = from_content (f.read_to_string path)

-- `ConfigBuilder`, which is the configuration that it builds
module _ {F64 : Type 0} where
  abbrev pub with_server_config : ServerConfig → Config F64 → Config F64
  with_server_config server c = record c { server = server }

  abbrev pub with_client_config : ClientConfig → Config F64 → Config F64
  with_client_config client c = record c { client = client }

  abbrev pub with_pool_config : PoolConfig → Config F64 → Config F64
  with_pool_config pool c = record c { pool = pool }

  abbrev pub with_security_config : SecurityConfig → Config F64 → Config F64
  with_security_config security c = record c { security = security }

  abbrev pub with_logging_config : LoggingConfig → Config F64 → Config F64
  with_logging_config logging c = record c { logging = logging }

  abbrev pub with_monitoring_config : MonitoringConfig F64 → Config F64 → Config F64
  with_monitoring_config monitoring c = record c { monitoring = monitoring }
