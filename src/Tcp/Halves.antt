-- ===== src/Tcp/Halves.antt =====
-- src/tcp.rs: a `TcpClient` whose second dial failed.
use xprotocol.Prelude.{◌≡◌, refl, String, true, none, some, List, [], ◌∷◌, map}
use xprotocol.Error.{connection_failed, connection_closed, Result, ok, err, IoResult, io_ok, io_err}
use xprotocol.Protocol.{ServiceRequest, ServiceResponse}
use xprotocol.Client.Uds.{Link, Socket, ClientJson}
use xprotocol.Tcp.{TcpClient, greet, keep_second, connect, on_stream, connected_call, call}

module _ (l : Link) (j : ClientJson) where
  open j use {Value}

  -- a call, with what the two dials would come to, should it dial
  pub record Attempt : Type 0 where
    pub first : IoResult (Socket l)
    pub second : IoResult (Socket l)
    pub service : String
    pub request : ServiceRequest Value

  unfoldable pub call_each :
      List Attempt → TcpClient l → List (Result (ServiceResponse Value)) × TcpClient l
  call_each [] c = ([], c)
  call_each (a ∷ attempts) c =
      let (r, c') = call l j a.first a.second a.service a.request c in
      let (rs, end) = call_each attempts c' in (r ∷ rs, end)

  abbrev half : String → TcpClient l → TcpClient l
  half session c = record c { session_id = some session; connected = true; stream = none }

  half-call :
      (a : Attempt) (session : String) (c : TcpClient l)
      → call l j a.first a.second a.service a.request (half session c)
        ≡ (err connection_closed, half session c)
  unfolding call connected_call on_stream
  half-call a session c = refl

  half-call_each :
      (attempts : List Attempt) (session : String) (c : TcpClient l)
      → call_each attempts (half session c)
        ≡ (map (λ a. err connection_closed) attempts, half session c)
  unfolding call_each
  half-call_each [] session c = refl
  half-call_each (a ∷ attempts) session c =
      rw (half-call a session c) (rw (half-call_each attempts session c) refl)

  half-connect :
      (first : Socket l) (e session : String) (c : TcpClient l)
      → c.stream ≡ none
      → (greet l j first).0 ≡ ok session
      → connect l j (io_ok first) (io_err e) c ≡ (err (connection_failed e), half session c)
  unfolding connect keep_second
  half-connect first e session c unset greeted = rw (greeted, unset) refl

  -- Where the handshake succeeds and the second dial then fails, a client that had no stream has
  -- lost it for good: `connect` reports the failure, and every later call, whatever it asks and
  -- whatever dialling would come to, is refused as if the connection were closed, without dialling,
  -- and changes nothing.
  pub connect_strands :
      (first : Socket l) (e session : String) (c : TcpClient l) (attempts : List Attempt)
      → c.stream ≡ none
      → (greet l j first).0 ≡ ok session
      → (c' : TcpClient l) × (connect l j (io_ok first) (io_err e) c
          ≡ (err (connection_failed e), c'))
        × (c'.connected ≡ true)
        × (call_each attempts c' ≡ (map (λ a. err connection_closed) attempts, c'))
  connect_strands first e session c attempts unset greeted = (
    half session c,
    half-connect first e session c unset greeted,
    refl,
    half-call_each attempts session c,
  )
