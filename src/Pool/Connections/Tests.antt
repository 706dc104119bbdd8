-- ===== src/Pool/Connections/Tests.antt =====
-- src/pool.rs: the theorems of `UdsConnectionPool` on sockets in memory, over a pool that keeps every
-- socket.
use xprotocol.Prelude.{◌≡◌, refl, Option, none, some, List, [], ◌∷◌}
use xprotocol.Error.{connection_failed, err}
use xprotocol.Wire.{write_message, read_message}
use xprotocol.Wire.Memory.{read_bytes}
use xprotocol.Client.Uds.{Socket, put, put_json, put_encoded, get_message}
use xprotocol.Client.Uds.Memory.{memory, add, client_json}
use xprotocol.Pool.Connections.{IdlePool, do_call}

abbrev pop : List (Socket memory) → Option (Socket memory) × List (Socket memory)
pop [] = (none, [])
pop (s ∷ ss) = (some s, ss)

abbrev stack : IdlePool memory
stack = record {
  P = List (Socket memory);
  take = pop;
  keep = λ id s ss. s ∷ ss;
  pop_closed = λ id ss. ss;
}

-- a socket that the peer closed
abbrev closed : Socket memory
closed = record { reader = []; writer = [] }

abbrev after : Socket memory
after = record { reader = []; writer = 0 ∷ 0 ∷ 0 ∷ 3 ∷ 16 ∷ 1 ∷ 2 ∷ [] }

call_fails :
    do_call memory stack client_json add closed ≡ (err (connection_failed "early eof"), after)
unfolding do_call put_json put_encoded put get_message write_message read_message read_bytes
call_fails = refl
