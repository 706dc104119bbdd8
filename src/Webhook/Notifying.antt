-- ===== src/Webhook/Notifying.antt =====
-- src/webhook.rs: `WebhookService::notify`.
use xprotocol.Prelude.{◌<◌, ◌≡◌, Option, some, List, [], ◌∷◌, ◌++◌, u32_mod, All}
use mathlib.Core.List.{append_assoc, append-nil}
use xprotocol.Error.{ProtocolError, Result, ok, err}
use xprotocol.Webhook.{
  Float, WebhookConfig, WebhookEvent, Http, verdict, note_error, send, send_each, notify,
}
use xprotocol.Webhook.Sending.{send-Returns}

-- the errors among results, in order
abbrev pub errors_of : List (Result (Unit {0})) → List ProtocolError
errors_of [] = []
errors_of (ok u ∷ rs) = errors_of rs
errors_of (err e ∷ rs) = e ∷ errors_of rs

module _ (f : Float) (h : Http) where
  open h use {World}

  -- Every sender is asked once, in order, each in the world that the one before it leaves.
  pub data Tried (event : WebhookEvent)
      : List (WebhookConfig f) → World → List (Result (Unit {0})) → World → Type 0 where
    none_left : {w : World} → Tried event [] w [] w
    tried :
        {c : WebhookConfig f} {senders : List (WebhookConfig f)} {r : Result (Unit {0})}
        {rs : List (Result (Unit {0}))} {w w1 w2 : World}
        → send f h c event w ≡ (some r, w1)
        → Tried event senders w1 rs w2
        → Tried event (c ∷ senders) w (r ∷ rs) w2

  abbrev pub IsBounded : WebhookConfig f → Type 0
  IsBounded c = c.retry_policy.max_retries < u32_mod

  note_error-errors_of :
      (more : List ProtocolError → World → Option (List ProtocolError) × World)
      (errors : List ProtocolError) (r : Result (Unit {0})) (rs : List (Result (Unit {0})))
      (w w2 : World)
      → ((es : List ProtocolError) → more es w ≡ (some (es ++ errors_of rs), w2))
      → note_error f h more errors (some r, w) ≡ (some (errors ++ errors_of (r ∷ rs)), w2)
  unfolding note_error
  note_error-errors_of more errors (ok u) rs w w2 k = k errors
  note_error-errors_of more errors (err e) rs w w2 k =
      rw (k (errors ++ e ∷ []), append_assoc errors (e ∷ []) (errors_of rs))

  send_each-Tried :
      (event : WebhookEvent) (senders : List (WebhookConfig f)) (w : World)
      → All IsBounded senders
      → (rs : List (Result (Unit {0}))) × (w2 : World) × Tried event senders w rs w2
        × ((errors : List ProtocolError)
            → send_each f h event senders errors w ≡ (some (errors ++ errors_of rs), w2))
  unfolding send_each
  send_each-Tried event [] w b = ([], w, none_left, λ errors. rw (append-nil errors))
  send_each-Tried event (c ∷ senders) w (b, bs) =
      let (r, w1, e) = send-Returns f h c event w b in
      let (rs, w2, t, k) = send_each-Tried event senders w1 bs in
      (
        r ∷ rs,
        w2,
        tried e t,
        λ errors. rw (e, note_error-errors_of (send_each f h event senders) errors r rs w1 w2 k),
      )

  -- `notify` asks every sender once and in order, whether or not the ones before it failed, and
  -- returns: success where no sender failed, else the errors of those that did, in their order.
  pub notify-Tried :
      (event : WebhookEvent) (senders : List (WebhookConfig f)) (w : World)
      → All IsBounded senders
      → (rs : List (Result (Unit {0}))) × (w2 : World) × Tried event senders w rs w2
        × (notify f h event senders w ≡ (some (verdict f h (errors_of rs)), w2))
  unfolding notify
  notify-Tried event senders w b =
      let (rs, w2, t, k) = send_each-Tried event senders w b in (rs, w2, t, rw (k []))
