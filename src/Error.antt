-- ===== src/Error.antt =====
-- src/error.rs: the errors of the protocol, and the result type with `?`.
use xprotocol.Prelude.{String, Bool, true, false, str_append}

-- enum ProtocolError
pub data ProtocolError : Type 0 where
  connection_failed : String → ProtocolError
  connection_closed : ProtocolError
  timeout : ProtocolError
  invalid_message : String → ProtocolError
  not_found : String → ProtocolError
  protocol : String → ProtocolError
  encoding : String → ProtocolError
  resource_exhausted : String → ProtocolError
  server : String → ProtocolError

-- `#[error(..)]`
abbrev pub to_string : ProtocolError → String
to_string (connection_failed e) = str_append "Connection failed: " e
to_string connection_closed = "Connection closed"
to_string timeout = "Request timeout"
to_string (invalid_message e) = str_append "Invalid message: " e
to_string (not_found e) = str_append "Service not found: " e
to_string (protocol e) = str_append "Protocol error: " e
to_string (encoding e) = str_append "Encoding error: " e
to_string (resource_exhausted e) = str_append "Resource exhausted: " e
to_string (server e) = str_append "Server error: " e

pub data Result {ℓ} (A : Type ℓ) : Type ℓ where
  ok : A → Result A
  err : ProtocolError → Result A

-- A call of the operating system or of a library; of its error the code keeps the text.
pub data IoResult {ℓ} (A : Type ℓ) : Type ℓ where
  io_ok : A → IoResult A
  io_err : String → IoResult A

-- impl From<std::io::Error> for ProtocolError, as `?` applies it
abbrev pub from_io {ℓ} : {A : Type ℓ} → IoResult A → Result A
from_io (io_ok a) = ok a
from_io (io_err e) = err (connection_failed e)

-- impl From<serde_json::Error> for ProtocolError
abbrev pub from_json {ℓ} : {A : Type ℓ} → IoResult A → Result A
from_json (io_ok a) = ok a
from_json (io_err e) = err (encoding e)

module _ {ℓ κ} {A : Type ℓ} {B : Type κ} where
  infixl 10 ◌>>=◌
  abbrev pub ◌>>=◌ : Result A → (A → Result B) → Result B
  ok a >>= f = f a
  err e >>= f = err e

abbrev pub is_ok {ℓ} : {A : Type ℓ} → Result A → Bool
is_ok (ok a) = true
is_ok (err e) = false
