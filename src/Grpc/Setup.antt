-- ===== src/Grpc/Setup.antt =====
-- src/grpc.rs: how the server is served and the client connected. tonic and the TCP listener are
-- parameters; a server and an endpoint are what they are set up with. What is served on a stream is
-- `serve_call` of Grpc.antt.
use xprotocol.Prelude.{
  ℕ, ◌≡◌, refl, String, Bool, true, false, Option, some, List, [], ◌∷◌, str_append,
}
use xprotocol.Error.{
  invalid_message, connection_failed, Result, ok, err, IoResult, io_ok, io_err, ◌>>=◌ as and_then,
}
use xprotocol.Grpc.{GrpcServerConfig, default_config, GrpcTlsConfig, from_env, validate}

-- what the server of each connection is built with; intervals in seconds
pub record Settings : Type 0 where
  pub max_decoding_message_size : ℕ
  pub max_encoding_message_size : ℕ
  pub initial_connection_window_size : ℕ
  pub initial_stream_window_size : ℕ
  pub max_concurrent_streams : ℕ
  pub http2_keepalive_interval : Option ℕ
  pub http2_keepalive_timeout : Option ℕ
  pub tcp_keepalive : Option ℕ
  pub tcp_nodelay : Bool

abbrev pub settings_of : GrpcServerConfig → Settings
settings_of config = record {
  max_decoding_message_size = config.max_message_size;
  max_encoding_message_size = config.max_message_size;
  initial_connection_window_size = config.initial_connection_window_size;
  initial_stream_window_size = config.initial_stream_window_size;
  max_concurrent_streams = config.max_concurrent_streams;
  http2_keepalive_interval = some config.http2_keepalive_interval_secs;
  http2_keepalive_timeout = some config.http2_keepalive_timeout_secs;
  tcp_keepalive = some config.tcp_keepalive_secs;
  tcp_nodelay = config.tcp_nodelay;
}

-- the network: addresses, listeners with what they come to accept, and streams
pub record Net : Type 1 where
  pub SocketAddr : Type 0
  pub Stream : Type 0
  pub parse : String → IoResult SocketAddr
  -- what `accept` gives, one result after another, as far as the server runs
  pub bind : SocketAddr → IoResult (List (IoResult Stream))

-- an endpoint of the client; intervals in seconds
pub record Endpoint : Type 0 where
  pub uri : String
  pub connect_timeout : ℕ
  pub tcp_keepalive : Option ℕ
  pub http2_adaptive_window : Bool
  pub initial_connection_window_size : ℕ
  pub initial_stream_window_size : ℕ

module _ (n : Net) where
  open n use {Stream}

  -- The loop: each stream that is accepted is served by a task of its own; an error is logged.
  unfoldable pub serve_each : Settings → List (IoResult Stream) → List (Settings × Stream)
  serve_each settings [] = []
  serve_each settings (io_ok s ∷ accepted) = (settings, s) ∷ serve_each settings accepted
  serve_each settings (io_err e ∷ accepted) = serve_each settings accepted

  unfoldable pub parsed : IoResult n.SocketAddr → Result n.SocketAddr
  parsed (io_ok addr) = ok addr
  parsed (io_err e) = err (invalid_message e)

  unfoldable pub listening :
      Settings → IoResult (List (IoResult Stream)) → Result (List (Settings × Stream))
  unfolding serve_each
  listening settings (io_ok accepted) = ok (serve_each settings accepted)
  listening settings (io_err e) = err (connection_failed e)

  -- the streams that are served, and with which settings
  unfoldable pub serve_with_config :
      String → GrpcServerConfig → GrpcTlsConfig → Result (List (Settings × Stream))
  unfolding parsed listening
  serve_with_config addr config tls_config = and_then (parsed (n.parse addr)) (λ socket.
      and_then (validate tls_config) (λ valid. listening (settings_of config) (n.bind socket)))

  -- `var` is the environment
  unfoldable pub serve : (String → Option String) → String → Result (List (Settings × Stream))
  unfolding serve_with_config from_env
  serve var addr = serve_with_config addr default_config (from_env var)

  -- TLS that is switched on has no effect: a configuration that enables it, with a certificate and a
  -- key, serves the same streams with the same settings as one that does not, on every address and
  -- network; no setting that a stream is served with depends on the certificate or the key.
  pub serve_with_config_clear :
      (addr cert key : String) (other_cert other_key : Option String) (config : GrpcServerConfig)
      → serve_with_config addr config
          (record { enabled = true; cert_path = some cert; key_path = some key })
        ≡ serve_with_config addr config
            (record { enabled = false; cert_path = other_cert; key_path = other_key })
  unfolding serve_with_config validate
  serve_with_config_clear addr cert key other_cert other_key config = refl

-- what is connected: the endpoint, and the sizes of its messages
pub record Channel : Type 0 where
  pub endpoint : Endpoint
  pub max_decoding_message_size : ℕ
  pub max_encoding_message_size : ℕ

-- `is_uri` is what `Endpoint::new` makes of the text, `connects` what dialling comes to
module _ (is_uri : String → IoResult (Unit {0})) (connects : Endpoint → IoResult (Unit {0})) where
  unfoldable pub failed {ℓ} : {A : Type ℓ} → IoResult A → Result A
  failed (io_ok a) = ok a
  failed (io_err e) = err (connection_failed e)

  abbrev pub endpoint_of : String → GrpcServerConfig → Endpoint
  endpoint_of addr config = record {
    uri = str_append "http://" addr;
    connect_timeout = 10;
    tcp_keepalive = some config.tcp_keepalive_secs;
    http2_adaptive_window = true;
    initial_connection_window_size = config.initial_connection_window_size;
    initial_stream_window_size = config.initial_stream_window_size;
  }

  unfoldable pub connect_with_config : String → GrpcServerConfig → Result Channel
  unfolding failed
  connect_with_config addr config = and_then (failed (is_uri (str_append "http://" addr))) (λ valid.
      and_then (failed (connects (endpoint_of addr config))) (λ connected. ok (record {
        endpoint = endpoint_of addr config;
        max_decoding_message_size = config.max_message_size;
        max_encoding_message_size = config.max_message_size;
      })))

  unfoldable pub connect : String → Result Channel
  unfolding connect_with_config
  connect addr = connect_with_config addr default_config
