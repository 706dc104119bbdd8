-- ===== src/Wire.antt =====
-- src/wire.rs: message framing over any byte stream.
mod Transport
pub use Transport.*
pub mod Frames
pub mod Decoding
pub mod Accepted
pub mod Ended
pub mod Refused
pub mod Messages
pub mod Memory
mod Tests
use xprotocol.Prelude.{
  ℕ, ◌+◌, ◌-◌, ◌*◌, ◌/◌, ◌%◌, ◌^◌, Bool, ◌||◌, List, [], ◌∷◌, length, get_or, ltb, u32_mod,
  if◌then◌else◌, decimal, str_append,
}
use xprotocol.Error.{ProtocolError, invalid_message, IoResult}
use xprotocol.Action.{Action, pure, fail, io, ◌>>=◌, ◌>>◌}

abbrev pub max_message_size : ℕ
max_message_size = 16 * 1024 * 1024

abbrev pub msg_handshake : ℕ
msg_handshake = 0x01

abbrev pub msg_handshake_ack : ℕ
msg_handshake_ack = 0x02

abbrev pub msg_request : ℕ
msg_request = 0x10

abbrev pub msg_response : ℕ
msg_response = 0x11

abbrev pub msg_stream_request : ℕ
msg_stream_request = 0x12

abbrev pub msg_stream_start : ℕ
msg_stream_start = 0x13

abbrev pub msg_stream_chunk : ℕ
msg_stream_chunk = 0x14

abbrev pub msg_stream_end : ℕ
msg_stream_end = 0x15

abbrev pub msg_error : ℕ
msg_error = 0x1f

abbrev pub msg_ping : ℕ
msg_ping = 0x40

abbrev pub msg_pong : ℕ
msg_pong = 0x41

abbrev pub msg_close : ℕ
msg_close = 0x50

abbrev pub msg_schema_request : ℕ
msg_schema_request = 0x60

abbrev pub msg_schema_response : ℕ
msg_schema_response = 0x61

-- `u32::to_be_bytes` and `u32::from_be_bytes`
abbrev pub to_be_bytes : ℕ → List ℕ
to_be_bytes n = (n / 2 ^ 24 % 256) ∷ (n / 2 ^ 16 % 256) ∷ (n / 2 ^ 8 % 256) ∷ (n % 256) ∷ []

pub from_be_bytes : List ℕ → ℕ
from_be_bytes b =
    get_or b 0 0 * 2 ^ 24 + get_or b 1 0 * 2 ^ 16 + get_or b 2 0 * 2 ^ 8 + get_or b 3 0

pub out_of_range : ℕ → Bool
out_of_range n = ltb n 2 || ltb max_message_size n

module _ (t : AsyncWrite) where
  open t use {W, write_all, flush}

  unfoldable pub write_message : ℕ → List ℕ → Action W (Unit {0})
  write_message msg_type payload =
      let size = 2 + length payload in
      if ltb max_message_size size then fail (invalid_message "message too large") else do
        io (write_all (to_be_bytes (size % u32_mod)))
        io (write_all (msg_type ∷ []))
        io (write_all (1 ∷ []))
        io (write_all payload)
        io flush
        pure tt

module _ (t : AsyncRead) where
  open t use {R, read_exact}

  -- `vec![0u8; n]`, which is filled only where n is positive
  read_payload : ℕ → Action R (List ℕ)
  read_payload n = if ltb 0 n then io (read_exact n) else pure []

  -- what `read_message` does once it has the length
  read_body : ℕ → Action R (ℕ × List ℕ)
  read_body size =
      if out_of_range size
      then fail (invalid_message (str_append "invalid length: " (decimal size)))
      else do
        type_buf ← io (read_exact 1)
        version_buf ← io (read_exact 1)
        payload ← read_payload (size - 2)
        pure (get_or type_buf 0 0, payload)

  unfoldable pub read_message : Action R (ℕ × List ℕ)
  unfolding read_body read_payload from_be_bytes out_of_range
  read_message = do len_buf ← io (read_exact 4); read_body (from_be_bytes len_buf)
