-- ===== src/Handlers.antt =====
-- src/handler.rs: what a `ServiceHandler` does where it says nothing else, health, and the handlers
-- that wrap a function. The asynchronous wrapper awaits what its function gives, which is the same
-- handler here.
use xprotocol.Prelude.{String, true, List, [], ◌∷◌}
use xprotocol.Protocol.{HandshakeRequest, HandshakeResponse, ServiceRequest, ServiceResponse}
use xprotocol.Server.Connection.{Handler}

pub data HealthStatus : Type 0 where
  healthy : (service : String) → HealthStatus
  unhealthy : (service reason : String) → HealthStatus

-- `HealthStatus::unhealthy`
abbrev pub unhealthy_of : String → String → HealthStatus
unhealthy_of service reason = unhealthy service reason

-- the default `capabilities`
abbrev pub default_capabilities : List String
default_capabilities = "json" ∷ []

-- the default `health_status`
abbrev pub default_health : String → HealthStatus
default_health service_name = healthy service_name

-- the default `on_handshake`; `uuid` is the session's id
abbrev pub default_handshake : String → String → HandshakeRequest → HandshakeResponse
default_handshake uuid service_name r = record {
  server_id = service_name;
  session_id = uuid;
  success = true;
  encoding = "json";
}

abbrev pub fn_handler :
    {Value : Type 0}
    → String
    → String
    → (ServiceRequest Value → ServiceResponse Value)
    → Handler Value
fn_handler uuid name f = record {
  service_name = name;
  on_handshake = default_handshake uuid name;
  handle = λ now request. f request;
}

-- `FnAsyncServiceHandler`: `await` is what the future that the function gives comes to
abbrev pub fn_async_handler :
    {Value : Type 0} {Future : Type 0}
    → (Future → ServiceResponse Value)
    → String
    → String
    → (ServiceRequest Value → Future)
    → Handler Value
fn_async_handler await uuid name f = record {
  service_name = name;
  on_handshake = default_handshake uuid name;
  handle = λ now request. await (f request);
}
