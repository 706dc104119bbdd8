-- ===== src/Wire/Tests.antt =====
-- src/wire.rs: the theorems at concrete streams, and runs of the two functions.
use xprotocol.Prelude.{ℕ, ◌≡◌, refl, List, [], ◌∷◌, ◌++◌, arith, str_append, decimal}
use xprotocol.Error.{ok, err, connection_failed}
use xprotocol.Wire.{msg_ping, msg_request, write_message, read_message}
use xprotocol.Wire.Memory.{sink, source, read_bytes}
use xprotocol.Wire.Accepted.{Framed, read_message-Framed}
use xprotocol.Wire.Messages.{Message, write_each, read_each, read_each-write_each}

abbrev ping_frame : List ℕ
ping_frame = 0 ∷ 0 ∷ 0 ∷ 2 ∷ 0x40 ∷ 1 ∷ []

write_ping : write_message sink msg_ping [] [] ≡ (ok tt, ping_frame)
unfolding write_message
write_ping = refl

-- A version byte that the library never writes is accepted too.
read_other_version :
    read_message source (0 ∷ 0 ∷ 0 ∷ 3 ∷ 0x10 ∷ 77 ∷ 5 ∷ 9 ∷ []) ≡ (ok (0x10, 5 ∷ []), 9 ∷ [])
unfolding read_message read_bytes
read_other_version = refl

read_truncated : (read_message source (0 ∷ 0 ∷ [])).0 ≡ err (connection_failed "early eof")
unfolding read_message read_bytes
read_truncated = refl

abbrev conversation : List Message
conversation = (msg_request, 7 ∷ 8 ∷ []) ∷ (msg_ping, []) ∷ []

write_conversation :
    (write_each sink conversation []).1 ≡ 0 ∷ 0 ∷ 0 ∷ 4 ∷ 0x10 ∷ 1 ∷ 7 ∷ 8 ∷ ping_frame
unfolding write_each write_message
write_conversation = refl

read_each-write_each_example :
    ((write_each sink conversation []).0 ≡ ok tt)
    × ((r' : List ℕ) × (read_each source 2
            (0 ∷ 0 ∷ 0 ∷ 4 ∷ 0x10 ∷ 1 ∷ 7 ∷ 8 ∷ (ping_frame ++ 1 ∷ []))
          ≡ (ok conversation, r'))
        × (r' ≡ 1 ∷ []))
unfolding write_each write_message
read_each-write_each_example =
    read_each-write_each sink source conversation (1 ∷ []) []
      (0 ∷ 0 ∷ 0 ∷ 4 ∷ 0x10 ∷ 1 ∷ 7 ∷ 8 ∷ (ping_frame ++ 1 ∷ [])) (omega arith) tt refl refl

read_message-Framed_example : Framed source 0x40 [] (ping_frame ++ 5 ∷ []) (5 ∷ [])
unfolding read_message read_bytes
read_message-Framed_example =
    read_message-Framed source 0x40 [] (ping_frame ++ 5 ∷ []) (5 ∷ []) refl

bad_length_text : str_append "invalid length: " (decimal 1) ≡ "invalid length: 1"
unfolding decimal
bad_length_text = refl
