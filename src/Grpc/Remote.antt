-- ===== src/Grpc/Remote.antt =====
-- src/grpc.rs: the client and the service together, and the TLS configuration.
use xprotocol.Prelude.{
  ℕ, ◌≡◌, ◌↔◌, refl, ◌∙◌, String, Bool, true, false, Option, none, some, List, ◌⊎◌, inl, inr,
  str_append,
}
use xprotocol.Error.{connection_failed, Result, ok, err, IoResult, io_ok, io_err}
use xprotocol.Protocol.{ServiceRequest, ServiceResponse}
use xprotocol.Server.Connection.{Handler}
use xprotocol.Grpc.{
  GrpcTlsConfig, validate, GrpcJson, internal, serve_call, reply_with, on_reply, call,
}

-- what is read is what was written
pub record RoundTrips (j : GrpcJson) : Type 0 where
  pub read_body :
      (v : j.Value) (bytes : List ℕ) → j.value_body v ≡ io_ok bytes → j.read_value bytes ≡ io_ok v

module _ (j : GrpcJson) (h : Handler j.Value) where
  open j use {Value}

  -- what a caller of the handler itself would be told, in the client's terms, given the encoding of
  -- its response's payload
  abbrev pub told : ServiceResponse Value → IoResult (List ℕ) → Result (ServiceResponse Value)
  told response (io_ok bytes) = ok response
  told response (io_err e) =
      err (connection_failed (j.print_status (internal (str_append "serialization error: " e))))

  on_reply-told :
      (now : ℕ) (response : ServiceResponse Value) (x : IoResult (List ℕ))
      → RoundTrips j
      → j.value_body response.payload ≡ x
      → on_reply j (reply_with j now response x) ≡ told response x
  on_reply-told now response (io_ok bytes) t e = rw (t.read_body response.payload bytes e) refl
  on_reply-told now response (io_err e) t k = refl

  call_encoded :
      (now served_at : ℕ) (request : ServiceRequest Value) (x : IoResult (List ℕ))
      → RoundTrips j
      → j.value_body request.payload ≡ x
      → (bytes : List ℕ) → x ≡ io_ok bytes
      → call j (serve_call j h served_at) now request
        ≡ told (h.handle served_at request) (j.value_body (h.handle served_at request).payload)
  unfolding call serve_call
  call_encoded now served_at request x t e bytes k = rw (e ∙ k) (
      rw (t.read_body request.payload bytes (e ∙ k)) (
        on_reply-told served_at (h.handle served_at request)
          (j.value_body (h.handle served_at request).payload) t refl))

  -- A call is transparent: over a channel that carries messages as they are, and a JSON library that
  -- reads back what it wrote, a request whose payload encodes gets exactly the response that the
  -- handler gives to that request, in every field; where that response does not encode, it gets
  -- `ConnectionFailed` with the text of the service's status.
  pub call-told :
      (now served_at : ℕ) (request : ServiceRequest Value) (bytes : List ℕ)
      → RoundTrips j
      → j.value_body request.payload ≡ io_ok bytes
      → call j (serve_call j h served_at) now request
        ≡ told (h.handle served_at request) (j.value_body (h.handle served_at request).payload)
  call-told now served_at request bytes t e =
      call_encoded now served_at request (io_ok bytes) t e bytes refl

-- With TLS off every configuration passes; with TLS on it passes exactly where both paths are given.
pub validate-Paths :
    (c : GrpcTlsConfig)
    → (validate c ≡ ok tt) ↔ (
        (c.enabled ≡ false)
        ⊎ ((cert : String) × (key : String) × (c.cert_path ≡ some cert) × (c.key_path ≡ some key)))
unfolding validate
validate-Paths c = by_fields c.enabled c.cert_path c.key_path
  where
    by_fields :
        (b : Bool) (c k : Option String)
        → (validate (record { enabled = b; cert_path = c; key_path = k }) ≡ ok tt)
          ↔ ((b ≡ false) ⊎ ((cert : String) × (key : String) × (c ≡ some cert) × (k ≡ some key)))
    by_fields false c k = (λ h. inl refl, λ h. refl)
    by_fields true none k =
        (λ h. absurd (cc), λ h. elim h [ inl e ↦ absurd (cc) | inr (x, y, e, _) ↦ absurd (cc) ])
    by_fields true (some x) none =
        (λ h. absurd (cc), λ h. elim h [ inl e ↦ absurd (cc) | inr (x, y, _, e) ↦ absurd (cc) ])
    by_fields true (some x) (some y) = (λ h. inr (x, y, refl, refl), λ h. refl)
