-- ===== src/Server/Admission.antt =====
-- src/server.rs: the rate limiter that all connections share.
use xprotocol.Prelude.{
  ℕ, ◌≡◌, ◌≢◌, refl, ◌⊎◌, inl, inr, String, true, not, Option, none, some, List, [], ◌∷◌, length,
  ltb, ◌==◌, arith, if◌then◌else◌, Bool-cases,
}
use xprotocol.Error.{ProtocolError, resource_exhausted, Result, ok, err, IoResult, from_json}
use xprotocol.Action.{continue, pure, fail, ◌>>=◌, ◌>>◌}
use xprotocol.Protocol.{HandshakeRequest}
use xprotocol.Wire.{AsyncWrite, msg_handshake, msg_handshake_ack, msg_error, write_message}
use xprotocol.Auth.Limiter
use xprotocol.Auth.Limiter.{RateLimiter, Ordered, end, passed-le-max_requests}
use xprotocol.Server.{ServerConfig}
use xprotocol.Server.Connection.{
  Json, Handler, Connection, Notice, request_received, notify_at, notify, written, send,
  send_encoded, send_json, send_error, rate_limited, welcome, handshake,
}

module _ (t : AsyncWrite) (j : Json) (h : Handler j.Value) (config : ServerConfig) where
  -- What a first message asks of the limiter: its client's id, where it is a handshake.
  unfoldable pub asked_by : ℕ → Result HandshakeRequest → List (ℕ × String)
  asked_by now (ok request) = (now, request.client_id) ∷ []
  asked_by now (err e) = []

  unfoldable pub asks : ℕ → Result (ℕ × List ℕ) → List (ℕ × String)
  unfolding asked_by
  asks now (err e) = []
  asks now (ok (msg_type, payload)) =
      if not (msg_type == msg_handshake)
      then []
      else if ltb config.max_request_size (length payload)
      then []
      else asked_by now (from_json (j.read_handshake payload))

  pub record Silent (l : RateLimiter) (cs : List (ℕ × String)) (x : Result String × Connection t.W)
      : Type 0 where
    pub nothing : cs ≡ []
    pub untouched : x.1.limiter ≡ l
    pub not_welcome : (who : String) → x.0 ≢ ok who

  pub record Asked (now : ℕ) (l : RateLimiter) (cs : List (ℕ × String))
      (x : Result String × Connection t.W) : Type 0 where
    pub id : String
    pub one : cs ≡ (now, id) ∷ []
    pub checked : x.1.limiter ≡ (Limiter.check now id l).1
    pub welcome_if :
        (who : String) → x.0 ≡ ok who → (who ≡ id) × ((Limiter.check now id l).0 ≡ true)

  abbrev pub Admits : ℕ → RateLimiter → List (ℕ × String) → Result String × Connection t.W → Type 0
  Admits now l cs x = Silent l cs x ⊎ Asked now l cs x

  written-limiter :
      (x : Result (Unit {0}) × t.W) (c : Connection t.W)
      → (written t j h config x c).1.limiter ≡ c.limiter
  unfolding written
  written-limiter (r, w) c = refl

  send_encoded-limiter :
      (msg_type : ℕ) (r : Result (List ℕ)) (c : Connection t.W)
      → (send_encoded t j h config msg_type r c).1.limiter ≡ c.limiter
  unfolding send_encoded send
  send_encoded-limiter msg_type (ok body) c =
      written-limiter (write_message t msg_type body c.writer) c
  send_encoded-limiter msg_type (err e) c = refl

  send_json-limiter :
      (msg_type : ℕ) (body : IoResult (List ℕ)) (c : Connection t.W)
      → (send_json t j h config msg_type body c).1.limiter ≡ c.limiter
  unfolding send_json
  send_json-limiter msg_type body c = send_encoded-limiter msg_type (from_json body) c

  -- what follows a message that was sent
  then_pure :
      (x : Result (Unit {0}) × Connection t.W) (id : String) (l : RateLimiter)
      → x.1.limiter ≡ l
      → ((continue x (λ _. pure id)).1.limiter ≡ l)
        × ((who : String) → (continue x (λ _. pure id)).0 ≡ ok who → who ≡ id)
  then_pure (ok a, c) id l e = (e, λ who k. ground (arith, k))
  then_pure (err x, c) id l e = (e, λ who k. absurd (cc))

  then_fail :
      (x : Result (Unit {0}) × Connection t.W) (e : ProtocolError) (l : RateLimiter)
      → x.1.limiter ≡ l
      → ((continue {B = String} x (λ _. fail e)).1.limiter ≡ l)
        × ((who : String) → (continue {B = String} x (λ _. fail e)).0 ≢ ok who)
  then_fail (ok a, c) e l k = (k, λ who m. absurd (cc))
  then_fail (err x, c) e l k = (k, λ who m. absurd (cc))

  -- The rest of the handshake, once the webhooks are told.
  decide : ℕ → HandshakeRequest → Connection t.W → Result String × Connection t.W
  decide now request = rate_limited t j h config now request.client_id >>= λ passes.
      if passes
      then (send_json t j h config msg_handshake_ack (j.handshake_body (h.on_handshake request))
          >> pure request.client_id)
      else (send_error t j h config "rate limit exceeded"
          >> fail (resource_exhausted "rate limit exceeded"))

  decide-Asked :
      (now : ℕ) (request : HandshakeRequest) (c : Connection t.W)
      → Asked now c.limiter ((now, request.client_id) ∷ []) (decide now request c)
  unfolding decide rate_limited send_error
  decide-Asked now request c =
      let l' = (Limiter.check now request.client_id c.limiter).1 in
      let c' = record c { limiter = l' } in
      elim (Bool-cases (Limiter.check now request.client_id c.limiter).0) [
        | inl passes ↦
            let (kept_l, named) =
              then_pure
                (send_json t j h config msg_handshake_ack
                  (j.handshake_body (h.on_handshake request)) c')
                request.client_id l' (send_json-limiter msg_handshake_ack _ c') in
            record {
              id = request.client_id;
              one = refl;
              checked = rw passes kept_l;
              welcome_if = λ who k. (named who (rw passes at k), passes);
            }
        | inr refused ↦
            let (kept_l, none_of) =
              then_fail (send_json t j h config msg_error (j.error_body "rate limit exceeded") c')
                (resource_exhausted "rate limit exceeded") l' (send_json-limiter msg_error _ c') in
            record {
              id = request.client_id;
              one = refl;
              checked = rw refused kept_l;
              welcome_if = λ who k. absurd (none_of who (rw refused at k));
            }
      ]

  notified-Asked :
      (now : ℕ) (request : HandshakeRequest) (n : Notice) (url : Option String) (c : Connection t.W)
      → Asked now c.limiter
          ((now, request.client_id) ∷ [])
          (continue (notify_at t j h config url n c) (λ _. decide now request))
  unfolding notify_at
  notified-Asked now request n none c = decide-Asked now request c
  notified-Asked now request n (some url) c =
      decide-Asked now request (record c { notices = n ∷ c.notices })

  welcome-Admits :
      (now : ℕ) (r : Result HandshakeRequest) (c : Connection t.W)
      → Admits now c.limiter (asked_by now r) (welcome t j h config now r c)
  unfolding asked_by welcome notify decide
  welcome-Admits now (err e) c =
      inl (record { nothing = refl; untouched = refl; not_welcome = λ who k. absurd (cc) })
  welcome-Admits now (ok request) c = inr (
      notified-Asked now request (request_received request.client_id h.service_name "handshake")
        config.webhook_url c)

  silent_failure :
      (now : ℕ) (e : ProtocolError) (c : Connection t.W) → Admits now c.limiter [] (err e, c)
  silent_failure now e c =
      inl (record { nothing = refl; untouched = refl; not_welcome = λ who k. absurd (cc) })

  pub handshake-Admits :
      (now : ℕ) (first : Result (ℕ × List ℕ)) (c : Connection t.W)
      → Admits now c.limiter (asks now first) (handshake t j h config now first c)
  unfolding asks handshake
  handshake-Admits now (err e) c = silent_failure now e c
  handshake-Admits now (ok (msg_type, payload)) c =
      elim (Bool-cases (not (msg_type == msg_handshake))) [
        | inl other ↦ rw other (silent_failure now _ c)
        | inr first_one ↦ elim (Bool-cases (ltb config.max_request_size (length payload))) [
          | inl large ↦ rw (first_one, large) (silent_failure now _ c)
          | inr small ↦
              rw (first_one, small) (welcome-Admits now (from_json (j.read_handshake payload)) c)
        ]
      ]
