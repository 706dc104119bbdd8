-- ===== src/Tcp/Tests.antt =====
-- src/tcp.rs: the theorems on sockets in memory.
use xprotocol.Prelude.{String, some, ℕ, ◌≡◌, refl, true, List, [], ◌∷◌, arith}
use xprotocol.Error.{connection_failed, connection_closed, ok, err, io_ok, io_err}
use xprotocol.Wire.{msg_handshake, msg_handshake_ack, write_message, read_message}
use xprotocol.Wire.Frames.{frame}
use xprotocol.Wire.Memory.{ending, read_bytes}
use xprotocol.Client.Uds.{Socket, ClientJson, put}
use xprotocol.Client.Uds.Memory.{memory, add, client_json, server_json, calc}
use xprotocol.Tcp.{TcpClient, new, greet, connect, call, turn, turns}
use xprotocol.Tcp.Halves.{Attempt, call_each, connect_strands}
use xprotocol.Tcp.Serving.{turns-AtEnd}
use xprotocol.Tcp.Calling.{second_call_unanswered}

abbrev ended : Socket memory
ended = record { reader = []; writer = [] }

turns-AtEnd_example :
    ((turns memory server_json calc 1000 (λ i. i) ended).0 ≡ ok true)
    × ((turns memory server_json calc 1000 (λ i. i) ended).1.writer ≡ [])
turns-AtEnd_example = turns-AtEnd memory server_json calc ending 1000 (λ i. i) ended refl

abbrev greeted : Socket memory
greeted = record { reader = frame msg_handshake (1 ∷ []); writer = [] }

abbrev on_stream : TcpClient memory
on_stream = record { connected = true; session_id = some "s1"; stream = some ended }

second_call_unanswered_example :
    ((e : String) × (s' : Socket memory) × (call memory client_json
          (io_err "refused")
          (io_err "refused")
          "calc"
          add
          on_stream
        ≡ (err (connection_failed e), record on_stream { stream = some s' }))
      × (s'.writer ≡ frame msg_handshake (1 ∷ [])))
    × ((r : List ℕ) × (turn memory server_json calc 4 greeted
          ≡ (ok true, record greeted { reader = r }))
        × (r ≡ []))
second_call_unanswered_example =
    second_call_unanswered memory memory client_json server_json calc (io_err "refused")
      (io_err "refused") "calc" add (1 ∷ []) 4 on_stream ended greeted refl refl refl (omega arith)
      tt refl refl

-- a server that takes the handshake, and then cannot be reached again
abbrev greeting_json : ClientJson
greeting_json = record client_json {
  read_handshake_response = λ b.
      io_ok (record { server_id = "calc"; session_id = "s1"; success = true; encoding = "json" });
}

abbrev acknowledged : Socket memory
acknowledged = record { reader = frame msg_handshake_ack (7 ∷ []); writer = [] }

greets_once : (greet memory greeting_json acknowledged).0 ≡ ok "s1"
unfolding greet put write_message read_message read_bytes
greets_once = refl

abbrev again : Attempt memory greeting_json
again = record {
  first = io_ok acknowledged;
  second = io_ok acknowledged;
  service = "calc";
  request = add;
}

connect_strands_example :
    (c : TcpClient memory) × (connect memory greeting_json
        (io_ok acknowledged)
        (io_err "refused")
        new
      ≡ (err (connection_failed "refused"), c))
    × (c.connected ≡ true)
    × (call_each memory greeting_json (again ∷ again ∷ []) c
        ≡ (err connection_closed ∷ err connection_closed ∷ [], c))
unfolding new
connect_strands_example =
    connect_strands memory greeting_json acknowledged "refused" "s1" new (again ∷ again ∷ []) refl
      greets_once
