-- ===== src/Webhook.antt =====
-- src/webhook.rs: events, retry policies, and the service that posts an event to every webhook.
-- The HTTP client, JSON and the floating-point product of the delay are parameters.
pub mod Sending
pub mod Notifying
mod Tests
use Prim.Native.Nat.{min}
use xprotocol.Prelude.{
  ℕ, zero, suc, ◌+◌, ◌-◌, ◌%◌, String, Bool, true, false, Option, none, some, List, [], ◌∷◌, ◌++◌,
  leb, u32_mod, str_append, decimal, if◌then◌else◌,
}
use xprotocol.Prelude.Dict.{Dict, insert}
use xprotocol.Error.{
  ProtocolError, connection_failed, server, Result, ok, err, IoResult, io_ok, io_err, from_json,
}

pub data WebhookEvent : Type 0 where
  request_received : (request_id service_name method timestamp : String) → WebhookEvent
  response_sent :
      (request_id service_name status : String) (duration_ms : ℕ) (timestamp : String)
      → WebhookEvent
  error : (request_id service_name error timestamp : String) → WebhookEvent
  health_check : (service_name status timestamp : String) → WebhookEvent

abbrev pub event_type : WebhookEvent → String
event_type (request_received i s m t) = "request_received"
event_type (response_sent i s x d t) = "response_sent"
event_type (error i s e t) = "error"
event_type (health_check s x t) = "health_check"

-- The multipliers, and `(initial as f64 * multiplier.powi(attempt as i32)) as u64`.
pub record Float : Type 1 where
  pub F64 : Type 0
  pub one : F64
  pub two : F64
  pub product : ℕ → F64 → ℕ → ℕ

pub record WebhookRetryPolicy (f : Float) : Type 0 where
  pub max_retries : ℕ
  pub initial_delay_ms : ℕ
  pub max_delay_ms : ℕ
  pub backoff_multiplier : f.F64

module _ (f : Float) where
  abbrev pub default_policy : WebhookRetryPolicy f
  default_policy = record {
    max_retries = 3;
    initial_delay_ms = 100;
    max_delay_ms = 10000;
    backoff_multiplier = f.two;
  }

  abbrev pub exponential : ℕ → WebhookRetryPolicy f
  exponential max_retries = record {
    max_retries = max_retries;
    initial_delay_ms = 100;
    max_delay_ms = 30000;
    backoff_multiplier = f.two;
  }

  abbrev pub linear : ℕ → ℕ → WebhookRetryPolicy f
  linear max_retries delay_ms = record {
    max_retries = max_retries;
    initial_delay_ms = delay_ms;
    max_delay_ms = delay_ms;
    backoff_multiplier = f.one;
  }

  unfoldable pub delay_for_retry : WebhookRetryPolicy f → ℕ → ℕ
  delay_for_retry p attempt =
      min (f.product p.initial_delay_ms p.backoff_multiplier attempt) p.max_delay_ms

pub record WebhookConfig (f : Float) : Type 0 where
  pub url : String
  pub headers : Dict String
  pub timeout_secs : ℕ
  pub retry_policy : WebhookRetryPolicy f

module _ (f : Float) where
  abbrev pub new_config : String → WebhookConfig f
  new_config url = record {
    url = url;
    headers = [];
    timeout_secs = 30;
    retry_policy = default_policy f;
  }

  abbrev pub with_header : String → String → WebhookConfig f → WebhookConfig f
  with_header key value c = record c { headers = insert key value c.headers }

  abbrev pub with_timeout : ℕ → WebhookConfig f → WebhookConfig f
  with_timeout secs c = record c { timeout_secs = secs }

  abbrev pub with_retry_policy : WebhookRetryPolicy f → WebhookConfig f → WebhookConfig f
  with_retry_policy policy c = record c { retry_policy = policy }

-- what reqwest is asked to post
pub record Post : Type 0 where
  pub url : String
  pub headers : List (String × String)
  pub body : List ℕ
  pub timeout_secs : ℕ

-- The world that a sender acts on: reqwest's answers with their statuses, the clock that it sleeps
-- by, and serde_json for events.
pub record Http : Type 1 where
  pub World : Type 0
  pub Status : Type 0
  pub post : Post → World → IoResult Status × World
  pub sleep : ℕ → World → World
  pub is_success : Status → Bool
  pub print_status : Status → String
  pub event_body : WebhookEvent → IoResult (List ℕ)

-- as a release build computes it: `max_retries + 1` wraps
abbrev pub max_attempts : ℕ → ℕ
max_attempts max_retries = (max_retries + 1) % u32_mod

abbrev pub last_attempt : ℕ → ℕ
last_attempt max_retries = (max_attempts max_retries + u32_mod - 1) % u32_mod

module _ (f : Float) (h : Http) where
  open h use {World, Status}

  abbrev pub request_of : WebhookConfig f → WebhookEvent → List ℕ → Post
  request_of c event payload = record {
    url = c.url;
    headers =
        ("Content-Type", "application/json") ∷ ("X-Webhook-Event", event_type event) ∷ c.headers;
    body = payload;
    timeout_secs = c.timeout_secs;
  }

  abbrev pub failed_after : ℕ → String → String
  failed_after max_retries what =
      str_append "Webhook failed after "
        (str_append (decimal (max_attempts max_retries)) (str_append " attempts: " what))

  -- the error with which the last attempt leaves
  abbrev pub gave_up : ℕ → IoResult Status → ProtocolError
  gave_up max_retries (io_ok status) =
      server (failed_after max_retries (str_append "HTTP " (h.print_status status)))
  gave_up max_retries (io_err e) = connection_failed (failed_after max_retries e)

  abbrev pub succeeds : IoResult Status → Bool
  succeeds (io_ok status) = h.is_success status
  succeeds (io_err e) = false

  -- the `match` on an answer, and the pause before the next turn
  unfoldable pub judge :
      WebhookRetryPolicy f
      → (ℕ → World → Option (Result (Unit {0})) × World)
      → ℕ
      → IoResult Status × World
      → Option (Result (Unit {0})) × World
  judge p more attempt (answer, w) =
      if succeeds answer
      then (some (ok tt), w)
      else if leb (last_attempt p.max_retries) attempt
      then (some (err (gave_up p.max_retries answer)), w)
      else more (attempt + 1) (h.sleep (delay_for_retry f p (attempt + 1)) w)

  -- the loop, over at most so many turns; `none` where those are used up
  unfoldable pub attempts :
      ℕ → WebhookRetryPolicy f → Post → ℕ → World → Option (Result (Unit {0})) × World
  unfolding judge
  attempts zero p request attempt w = (none, w)
  attempts (suc n) p request attempt w = judge p (attempts n p request) attempt (h.post request w)

  unfoldable pub send_payload :
      WebhookConfig f → WebhookEvent → Result (List ℕ) → World → Option (Result (Unit {0})) × World
  unfolding attempts
  send_payload c event (ok payload) w =
      attempts (suc c.retry_policy.max_retries) c.retry_policy (request_of c event payload) 0 w
  send_payload c event (err e) w = (some (err e), w)

  -- `WebhookSender::send`
  unfoldable pub send : WebhookConfig f → WebhookEvent → World → Option (Result (Unit {0})) × World
  unfolding send_payload
  send c event = send_payload c event (from_json (h.event_body event))

  unfoldable pub note_error :
      (List ProtocolError → World → Option (List ProtocolError) × World)
      → List ProtocolError
      → Option (Result (Unit {0})) × World
      → Option (List ProtocolError) × World
  note_error more errors (none, w) = (none, w)
  note_error more errors (some (ok u), w) = more errors w
  note_error more errors (some (err e), w) = more (errors ++ e ∷ []) w

  unfoldable pub send_each :
      WebhookEvent
      → List (WebhookConfig f)
      → List ProtocolError
      → World
      → Option (List ProtocolError) × World
  unfolding send note_error
  send_each event [] errors w = (some errors, w)
  send_each event (c ∷ senders) errors w =
      note_error (send_each event senders) errors (send c event w)

  -- `Result<(), Vec<ProtocolError>>`
  pub data Notified : Type 0 where
    notified : Notified
    not_notified : List ProtocolError → Notified

  abbrev pub verdict : List ProtocolError → Notified
  verdict [] = notified
  verdict (e ∷ errors) = not_notified (e ∷ errors)

  abbrev pub map_verdict : Option (List ProtocolError) × World → Option Notified × World
  map_verdict (none, w) = (none, w)
  map_verdict (some errors, w) = (some (verdict errors), w)

  -- `WebhookService`: its senders in order
  unfoldable pub notify : WebhookEvent → List (WebhookConfig f) → World → Option Notified × World
  unfolding send_each
  notify event senders w = map_verdict (send_each event senders [] w)

  abbrev pub with_webhook : WebhookConfig f → List (WebhookConfig f) → List (WebhookConfig f)
  with_webhook c senders = senders ++ c ∷ []

  -- `now` is the timestamp
  abbrev pub notify_request_received :
      String → String → String → String → List (WebhookConfig f) → World → Option Notified × World
  notify_request_received now request_id service_name method =
      notify (request_received request_id service_name method now)

  abbrev pub notify_response_sent :
      String
      → String
      → String
      → String
      → ℕ
      → List (WebhookConfig f)
      → World
      → Option Notified × World
  notify_response_sent now request_id service_name status duration_ms =
      notify (response_sent request_id service_name status duration_ms now)

  abbrev pub notify_error :
      String → String → String → String → List (WebhookConfig f) → World → Option Notified × World
  notify_error now request_id service_name text = notify (error request_id service_name text now)
