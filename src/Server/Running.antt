-- ===== src/Server/Running.antt =====
-- src/server.rs: `UdsServer::run` and `run_with_config`: what is set up before the first connection,
-- and the accept loop with the tasks that it spawns, which share one rate limiter, one counter of
-- connections and the metrics of the handler's service. The file system is a parameter.
use xprotocol.Prelude.{ℕ, ◌*◌, String, Bool, Option, none, some, List, [], ◌∷◌, ◌++◌, if◌then◌else◌}
use xprotocol.Error.{Result, ok, err, IoResult}
use xprotocol.Action.{Action, io, ◌>>◌}
use xprotocol.Metrics.{ServiceMetrics}
use xprotocol.Webhook.{Float, Http, WebhookConfig, new_config}
use xprotocol.Webhook
use xprotocol.Wire.{AsyncWrite}
use xprotocol.Auth.Limiter
use xprotocol.Auth.Limiter.{RateLimiter}
use xprotocol.Server.{ServerConfig, default_config, admit, retire}
use xprotocol.Server.Connection.{Json, Handler, Connection, handshake}

-- durations in milliseconds
abbrev pub with_request_timeout : ℕ → ServerConfig → ServerConfig
with_request_timeout timeout c = record c { request_timeout = timeout }

abbrev pub with_webhook : String → ServerConfig → ServerConfig
with_webhook url c = record c { webhook_url = some url }

abbrev pub with_streaming : Bool → ServerConfig → ServerConfig
with_streaming enabled c = record c { enable_streaming = enabled }

abbrev pub with_schema_introspection : Bool → ServerConfig → ServerConfig
with_schema_introspection enabled c = record c { enable_schema_introspection = enabled }

abbrev pub with_max_connections : ℕ → ServerConfig → ServerConfig
with_max_connections max c = record c { max_connections = max }

abbrev pub with_rate_limit : ℕ → ℕ → ServerConfig → ServerConfig
with_rate_limit max_requests window_secs c = record c {
  rate_limit = record { max_requests = max_requests; window_secs = window_secs };
}

-- `metrics` are those of the handler's service in the collector, where there is a collector
pub record UdsServer : Type 0 where
  pub path : String
  pub webhook_url : Option String
  pub metrics : Option ServiceMetrics

abbrev pub new : String → UdsServer
new path = record { path = path; webhook_url = none; metrics = none }

abbrev pub with_webhook_url : String → UdsServer → UdsServer
with_webhook_url url s = record s { webhook_url = some url }

abbrev pub with_metrics : ServiceMetrics → UdsServer → UdsServer
with_metrics m s = record s { metrics = some m }

-- the file system and its sockets
pub record Files : Type 1 where
  pub World : Type 0
  pub Listener : Type 0
  pub exists_at : String → World → Bool
  pub remove_file : String → World → IoResult (Unit {0}) × World
  pub bind : String → World → IoResult Listener × World

-- what the accept loop starts with
pub record Started (f : Float) (L : Type 0) : Type 0 where
  pub listener : L
  pub webhook_service : Option (List (WebhookConfig f))
  pub rate_limiter : RateLimiter
  pub metrics : Option ServiceMetrics
  pub max_connections : ℕ

module _ (f : Float) (http : Http) (fs : Files) where
  webhooks_of : Option String → Option (List (WebhookConfig f))
  webhooks_of none = none
  webhooks_of (some url) = some (Webhook.with_webhook f http (new_config f url) [])

  started : UdsServer → ServerConfig → fs.Listener → Started f fs.Listener
  unfolding webhooks_of
  started s config listener = record {
    listener = listener;
    webhook_service = webhooks_of config.webhook_url;
    rate_limiter =
        Limiter.new config.rate_limit.max_requests (1000 * config.rate_limit.window_secs);
    metrics = s.metrics;
    max_connections = config.max_connections;
  }

  unfoldable pub bound :
      UdsServer
      → ServerConfig
      → Result fs.Listener × fs.World
      → Result (Started f fs.Listener) × fs.World
  unfolding started
  bound s config (ok listener, w) = (ok (started s config listener), w)
  bound s config (err e, w) = (err e, w)

  listen : String → Action fs.World fs.Listener
  listen path w =
      if fs.exists_at path w
      then (io (fs.remove_file path) >> io (fs.bind path)) w
      else io (fs.bind path) w

  -- up to the loop
  unfoldable pub run_with_config :
      UdsServer → ServerConfig → fs.World → Result (Started f fs.Listener) × fs.World
  unfolding listen
  run_with_config s config w = bound s config (listen s.path w)

  webhook_config : Option String → ServerConfig
  webhook_config none = default_config
  webhook_config (some url) = with_webhook url default_config

  unfoldable pub run : UdsServer → fs.World → Result (Started f fs.Listener) × fs.World
  unfolding webhook_config run_with_config
  run s w = run_with_config s (webhook_config s.webhook_url) w

-- What the loop and its tasks do, one after the other: a task's handshake and the end of a task come
-- at any time. `greets` has the time, what the connection has written, and its first message.
pub data Event (W : Type 0) : Type 0 where
  accepted failed ended : Event W
  greets : ℕ → W → Result (ℕ × List ℕ) → Event W

-- `welcomed` is the log of the handshakes that succeeded: the client's id, and when.
pub record Serving : Type 0 where
  pub active : ℕ
  pub limiter : RateLimiter
  pub metrics : Option ServiceMetrics
  pub welcomed : List (ℕ × String)

module _ (t : AsyncWrite) (j : Json) (h : Handler j.Value) (config : ServerConfig) where
  unfoldable pub noted : ℕ → Result String → List (ℕ × String) → List (ℕ × String)
  noted now (ok client_id) log = log ++ (now, client_id) ∷ []
  noted now (err e) log = log

  unfoldable pub greeted : ℕ → Result String × Connection t.W → Serving → Serving
  unfolding noted
  greeted now (r, c) s = record s {
    limiter = c.limiter;
    metrics = c.metrics;
    welcomed = noted now r s.welcomed;
  }

  unfoldable pub step : Event t.W → Serving → Serving
  unfolding greeted
  step accepted s = record s { active = (admit config.max_connections s.active).1 }
  -- the loop sleeps, and goes on
  step failed s = s
  step ended s = record s { active = retire s.active }
  step (greets now w first) s =
      greeted now
        (handshake t j h config now first
          (record { writer = w; metrics = s.metrics; notices = []; limiter = s.limiter }))
        s

  unfoldable pub run_events : List (Event t.W) → Serving → Serving
  run_events [] s = s
  run_events (e ∷ es) s = run_events es (step e s)
