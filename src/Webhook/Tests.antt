-- ===== src/Webhook/Tests.antt =====
-- src/webhook.rs: the theorems at a webhook that is down for a while.
use xprotocol.Prelude.{
  ℕ, zero, suc, ◌≡◌, ◌<◌, refl, false, some, List, [], ◌∷◌, ◌==◌, decimal, arith, if◌then◌else◌,
}
use xprotocol.Error.{Result, ok, err, io_ok, io_err}
use xprotocol.Webhook.{
  Float, WebhookConfig, WebhookEvent, health_check, Http, new_config, exponential,
  with_retry_policy, request_of, gave_up, send, verdict, notify,
}
use xprotocol.Webhook.Sending.{succeeds_at, send-first_success, send-exhausted}
use xprotocol.Webhook.Notifying.{errors_of, Tried, notify-Tried}

-- multipliers of whole numbers
abbrev whole : Float
whole = record { F64 = ℕ; one = 1; two = 2; product = λ n m k. n }

-- The world counts the posts; a server that is up from post number `back` on.
abbrev up_from : ℕ → Http
up_from back = record {
  World = ℕ;
  Status = ℕ;
  post = λ r w. (if w == back then io_ok 200 else io_err "refused", suc w);
  sleep = λ d w. w;
  is_success = λ s. s == 200;
  print_status = decimal;
  event_body = λ e. io_ok (1 ∷ []);
}

abbrev hook : WebhookConfig whole
hook = with_retry_policy whole (exponential whole 2) (new_config whole "http://hook")

abbrev event : WebhookEvent
event = health_check "calc" "healthy" "t0"

send-first_success_example : send whole (up_from 1) hook event 0 ≡ (some (ok tt), 2)
send-first_success_example =
    send-first_success whole (up_from 1) hook event (1 ∷ []) 1 0 refl (omega arith) (omega arith)
      first_fails refl
  where
    first_fails :
        (k : ℕ)
        → k < 1
        → succeeds_at whole
            (up_from 1)
            hook.retry_policy
            (request_of whole (up_from 1) hook event (1 ∷ []))
            0
            k
          ≡ false
    first_fails zero l = refl
    first_fails (suc k) l = absurd (omega (arith, l))

-- a server that is never up
abbrev down : Http
down = record {
  World = ℕ;
  Status = ℕ;
  post = λ r w. (io_err "refused", suc w);
  sleep = λ d w. w;
  is_success = λ s. s == 200;
  print_status = decimal;
  event_body = λ e. io_ok (1 ∷ []);
}

send-exhausted_example :
    send whole down hook event 0 ≡ (some (err (gave_up whole down 2 (io_err "refused"))), 3)
send-exhausted_example =
    send-exhausted whole down hook event (1 ∷ []) 0 refl (omega arith) (λ k l. refl)

notify-Tried_example :
    (rs : List (Result (Unit {0}))) × (w2 : ℕ) × Tried whole
      (up_from 3)
      event
      (hook ∷ hook ∷ [])
      0
      rs
      w2
    × (notify whole (up_from 3) event (hook ∷ hook ∷ []) 0
        ≡ (some (verdict whole (up_from 3) (errors_of rs)), w2))
notify-Tried_example =
    notify-Tried whole (up_from 3) event (hook ∷ hook ∷ []) 0 (omega arith, (omega arith, tt))
