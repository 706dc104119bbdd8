-- ===== src/Grpc.antt =====
-- src/grpc.rs: the service that wraps a handler, the client, and their configuration. Messages are
-- those of src/xprotocol.v1.rs; tonic, which carries them, is a parameter.
pub mod Remote
pub mod Setup
mod Tests
use xprotocol.Prelude.{
  ℕ, ◌*◌, String, Bool, true, false, ◌||◌, Option, none, some, List, [], str_append, str_eq,
  if◌then◌else◌,
}
use xprotocol.Prelude.Dict.{Dict}
use xprotocol.Error.{
  ProtocolError, invalid_message, connection_failed, encoding, Result, ok, err, IoResult, io_ok,
  io_err, from_json, ◌>>=◌ as and_then,
}
use xprotocol.Protocol.{ServiceRequest, ServiceResponse}
use xprotocol.Server.Connection.{Handler}

pub record GrpcServerConfig : Type 0 where
  pub max_message_size : ℕ
  pub http2_keepalive_interval_secs : ℕ
  pub http2_keepalive_timeout_secs : ℕ
  pub tcp_keepalive_secs : ℕ
  pub tcp_nodelay : Bool
  pub initial_connection_window_size : ℕ
  pub initial_stream_window_size : ℕ
  pub max_concurrent_streams : ℕ

abbrev pub default_config : GrpcServerConfig
default_config = record {
  max_message_size = 4 * 1024 * 1024;
  http2_keepalive_interval_secs = 10;
  http2_keepalive_timeout_secs = 20;
  tcp_keepalive_secs = 60;
  tcp_nodelay = true;
  initial_connection_window_size = 1024 * 1024;
  initial_stream_window_size = 512 * 1024;
  max_concurrent_streams = 200;
}

pub record GrpcTlsConfig : Type 0 where
  pub enabled : Bool
  pub cert_path : Option String
  pub key_path : Option String

abbrev pub is_set_on : Option String → Bool
is_set_on none = false
is_set_on (some v) = str_eq v "true" || str_eq v "1" || str_eq v "yes"

-- `var` is the environment
unfoldable pub from_env : (String → Option String) → GrpcTlsConfig
from_env var = record {
  enabled = is_set_on (var "GRPC_TLS_ENABLED");
  cert_path = var "GRPC_TLS_CERT_PATH";
  key_path = var "GRPC_TLS_KEY_PATH";
}

abbrev pub required : String → Option String → Result (Unit {0})
required message none = err (invalid_message message)
required message (some path) = ok tt

unfoldable pub validate : GrpcTlsConfig → Result (Unit {0})
validate c =
    if c.enabled
    then and_then (required "GRPC_TLS_CERT_PATH is required when GRPC_TLS_ENABLED=true" c.cert_path)
        (λ u. required "GRPC_TLS_KEY_PATH is required when GRPC_TLS_ENABLED=true" c.key_path)
    else ok tt

-- the messages
pub record GrpcRequest : Type 0 where
  pub request_id : String
  pub correlation_id : String
  pub service_name : String
  pub method : String
  pub payload : List ℕ
  pub topic : Option String
  pub metadata : Option (Dict String)
  pub timestamp : ℕ

pub record GrpcResponse : Type 0 where
  pub request_id : String
  pub correlation_id : String
  pub status : String
  pub payload : List ℕ
  pub error : Option String
  pub error_code : Option ℕ
  pub timestamp : ℕ

-- `tonic::Status`, as far as the service makes one; the transport has errors of its own
pub data Status : Type 0 where
  invalid_argument : String → Status
  internal : String → Status
  transport : String → Status

pub data Served (A : Type 0) : Type 0 where
  served : A → Served A
  refused : Status → Served A

-- serde_json on values, and the text of a status
pub record GrpcJson : Type 1 where
  pub Value : Type 0
  pub value_body : Value → IoResult (List ℕ)
  pub read_value : List ℕ → IoResult Value
  pub print_status : Status → String

module _ (j : GrpcJson) where
  open j use {Value}

  abbrev pub internal_request : GrpcRequest → Value → ServiceRequest Value
  internal_request req payload = record {
    request_id = req.request_id;
    correlation_id = req.correlation_id;
    service_name = req.service_name;
    method = req.method;
    payload = payload;
    topic = req.topic;
  }

  abbrev pub reply_with : ℕ → ServiceResponse Value → IoResult (List ℕ) → Served GrpcResponse
  reply_with now response (io_ok bytes) = served (record {
    request_id = response.request_id;
    correlation_id = response.correlation_id;
    status = response.status;
    payload = bytes;
    error = response.error;
    error_code = none;
    timestamp = now;
  })
  reply_with now response (io_err e) = refused (internal (str_append "serialization error: " e))

  abbrev pub answer : Handler Value → ℕ → ServiceRequest Value → Served GrpcResponse
  answer h now request =
      let response = h.handle now request in reply_with now response (j.value_body response.payload)

  abbrev pub on_payload : Handler Value → ℕ → GrpcRequest → IoResult Value → Served GrpcResponse
  on_payload h now req (io_ok payload) = answer h now (internal_request req payload)
  on_payload h now req (io_err e) = refused (invalid_argument (str_append "invalid payload: " e))

  -- `GrpcServiceWrapper::call`
  unfoldable pub serve_call : Handler Value → ℕ → GrpcRequest → Served GrpcResponse
  serve_call h now req = on_payload h now req (j.read_value req.payload)

  abbrev pub grpc_request : ℕ → ServiceRequest Value → List ℕ → GrpcRequest
  grpc_request now request payload = record {
    request_id = request.request_id;
    correlation_id = request.correlation_id;
    service_name = request.service_name;
    method = request.method;
    payload = payload;
    topic = request.topic;
    metadata = none;
    timestamp = now;
  }

  abbrev pub service_response : GrpcResponse → Value → ServiceResponse Value
  service_response resp payload = record {
    request_id = resp.request_id;
    correlation_id = resp.correlation_id;
    status = resp.status;
    payload = payload;
    error = resp.error;
  }

  abbrev pub on_reply : Served GrpcResponse → Result (ServiceResponse Value)
  on_reply (served resp) =
      and_then (from_json (j.read_value resp.payload))
        (λ payload. ok (service_response resp payload))
  on_reply (refused status) = err (connection_failed (j.print_status status))

  -- `GrpcClient::call`, over what the channel gives for a message
  unfoldable pub call :
      (GrpcRequest → Served GrpcResponse)
      → ℕ
      → ServiceRequest Value
      → Result (ServiceResponse Value)
  call channel now request =
      and_then (from_json (j.value_body request.payload))
        (λ payload. on_reply (channel (grpc_request now request payload)))

-- `call_stream` and `call_server_stream`: what the streams hold
abbrev pub call_stream : List GrpcRequest → Served (List GrpcResponse)
call_stream requests = served []

abbrev pub call_server_stream : GrpcRequest → Served (List GrpcResponse)
call_server_stream request = served []
