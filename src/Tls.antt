-- ===== src/Tls.antt =====
-- src/tls.rs: `TlsConfig` and `TlsClient`. native_tls and the TCP sockets are parameters; an error of
-- theirs is its text.
use xprotocol.Prelude.{◌≡◌, refl, String, Bool, true, false, Option, none, some, if◌then◌else◌}
use xprotocol.Error.{connection_failed, to_string, Result, ok, err, IoResult, io_ok, io_err}

pub record NativeTls : Type 1 where
  pub Identity : Type 0
  pub Builder : Type 0
  pub Connector : Type 0
  pub TcpStream : Type 0
  pub TlsStream : Type 0
  pub builder : Builder
  pub danger_accept_invalid_certs : Bool → Builder → Builder
  pub identity : Identity → Builder → Builder
  pub build : Builder → IoResult Connector
  -- `TcpStream::connect(addr)`
  pub dial : String → IoResult TcpStream
  -- `connector.connect(domain, stream)`
  pub handshake : Connector → String → TcpStream → IoResult TlsStream

module _ (n : NativeTls) where
  pub record TlsConfig : Type 0 where
    pub identity : Option n.Identity
    pub accept_invalid_certs : Bool

  abbrev pub new : TlsConfig
  new = record { identity = none; accept_invalid_certs = false }

  abbrev pub with_identity : n.Identity → TlsConfig → TlsConfig
  with_identity i c = record c { identity = some i }

  abbrev pub accept_invalid_certs : TlsConfig → TlsConfig
  accept_invalid_certs c = record c { accept_invalid_certs = true }

  unfoldable pub failed {ℓ} : {A : Type ℓ} → IoResult A → Result A
  failed (io_ok a) = ok a
  failed (io_err e) = err (connection_failed e)

  unfoldable pub identified : Option n.Identity → n.Builder → n.Builder
  identified none b = b
  identified (some i) b = n.identity i b

  unfoldable pub build : TlsConfig → Result n.Connector
  unfolding identified failed
  build c = failed (
      n.build (
        identified c.identity (
          if c.accept_invalid_certs
          then n.danger_accept_invalid_certs true n.builder
          else n.builder)))

  pub record TlsClient : Type 0 where
    pub connector : n.Connector
    pub addr : String

  unfoldable pub made : String → Result n.Connector → Result TlsClient
  made addr (ok c) = ok (record { connector = c; addr = addr })
  made addr (err e) = err (connection_failed (to_string e))

  unfoldable pub new_client : TlsConfig → String → Result TlsClient
  unfolding made build
  new_client config addr = made addr (build config)

  unfoldable pub encrypt : TlsClient → Result n.TcpStream → Result n.TlsStream
  unfolding failed
  encrypt c (ok s) = failed (n.handshake c.connector c.addr s)
  encrypt c (err e) = err e

  unfoldable pub connect : TlsClient → Result n.TlsStream
  unfolding encrypt
  connect c = encrypt c (failed (n.dial c.addr))

  -- A client's connection fails with the text of the first step that fails, dialling or the TLS
  -- handshake, and the connector is asked to check the certificate for the whole address, port
  -- included, as if that were the name of the host.
  pub connect_outcome :
      (c : TlsClient) (s : n.TcpStream) (x : n.TlsStream) (e : String)
      → ((n.dial c.addr ≡ io_err e) → connect c ≡ err (connection_failed e))
        × ((n.dial c.addr ≡ io_ok s)
            → (n.handshake c.connector c.addr s ≡ io_err e)
            → connect c ≡ err (connection_failed e))
        × ((n.dial c.addr ≡ io_ok s)
            → (n.handshake c.connector c.addr s ≡ io_ok x)
            → connect c ≡ ok x)
  unfolding connect
  connect_outcome c s x e = (λ d. rw d refl, λ d h. rw d (rw h refl), λ d h. rw d (rw h refl))
