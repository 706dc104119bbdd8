-- ===== src/Server.antt =====
-- src/server.rs: the accept loop's count of connections, the server's configuration, and what it
-- takes for a valid request. The requests are served in Server/Connection.antt.
pub mod Connection
pub mod Running
pub mod Admission
pub mod Welcoming
pub mod Counting
pub mod Balance
pub mod Serving
pub mod Lifetime
pub mod Answering
mod Tests
use xprotocol.Prelude.{
  ℕ, ◌*◌, ◌+◌, String, Bool, true, false, not, ◌&&◌, ◌||◌, Option, none, some, List, [], ◌∷◌, len,
  ltb, leb, ◌==◌, fetch_add, fetch_sub, if◌then◌else◌,
}
use xprotocol.Protocol.{ServiceRequest}

pub record RateLimitConfig : Type 0 where
  pub max_requests : ℕ
  pub window_secs : ℕ

pub record ServerConfig : Type 0 where
  pub request_timeout : ℕ
  pub idle_timeout : ℕ
  pub max_request_size : ℕ
  pub max_connections : ℕ
  pub webhook_url : Option String
  pub enable_streaming : Bool
  pub enable_schema_introspection : Bool
  pub rate_limit : RateLimitConfig

-- durations in milliseconds
abbrev pub default_config : ServerConfig
default_config = record {
  request_timeout = 30000;
  idle_timeout = 300000;
  max_request_size = 16 * 1024 * 1024;
  max_connections = 10000;
  webhook_url = none;
  enable_streaming = true;
  enable_schema_introspection = true;
  rate_limit = record { max_requests = 1000; window_secs = 60 };
}

-- A field must have a length, and at most so many bytes. `bytes` is `str::len`, the length in
-- UTF-8.
fits : (String → ℕ) → ℕ → String → Bool
fits bytes limit s = not (bytes s == 0 || ltb limit (bytes s))

unfoldable pub validate_request : {Value : Type 0} → (String → ℕ) → ServiceRequest Value → Bool
unfolding fits
validate_request bytes r =
    if not (fits bytes 256 r.service_name)
    then false
    else if not (fits bytes 256 r.method)
    then false
    else if not (fits bytes 128 r.request_id)
    then false
    else true

-- A connection that the listener accepted: whether it is served, and ACTIVE_CONNECTIONS then.
unfoldable pub admit : ℕ → ℕ → Bool × ℕ
admit max_connections active =
    if leb max_connections active then (false, active) else (true, fetch_add active 1)

-- the end of the task that served a connection, where it does not panic; the counter is static, and
-- here that of the one server of the process
unfoldable pub retire : ℕ → ℕ
retire active = fetch_sub active 1
