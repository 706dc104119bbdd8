-- ===== src/Client/Uds/Tests.antt =====
-- src/client.rs: the theorems of `UdsClient` on sockets in memory.
use xprotocol.Prelude.{ℕ, ◌≡◌, refl, String, true, none, some, List, [], ◌∷◌, ◌++◌, arith, len}
use xprotocol.Error.{ok, io_ok}
use xprotocol.Auth.Limiter
use xprotocol.Wire.{
  msg_request, msg_response, msg_stream_request, msg_stream_start, msg_stream_chunk, msg_stream_end,
  write_message, read_message,
}
use xprotocol.Wire.Frames.{frame}
use xprotocol.Wire.Memory.{sink, source, read_bytes}
use xprotocol.Server.{default_config, validate_request}
use xprotocol.Server.Connection.{Connection, serve_message}
use xprotocol.Client.Uds.{
  Socket, ClientJson, reached, refused, too_slow, new, put, call, collect, do_call_streaming,
}
use xprotocol.Client.Uds.Memory.{memory, add, client_json, server_json, calc}
use xprotocol.Client.Uds.Sound.{IsSound, Dropped, calling, closing, connecting, run, run-IsSound}
use xprotocol.Streaming.{StreamMessage, StreamResponse, new_message}
use xprotocol.Client.Uds.Chunks.{do_call_streaming-chunks}
use xprotocol.Client.Uds.Streaming.{Finished, collect-Finished}
use xprotocol.Client.Uds.Remote.{server_turn, Joined}

-- a socket on which an answer waits
abbrev answered : Socket memory
answered = record { reader = frame msg_response (9 ∷ []); writer = [] }

run-IsSound_example :
    IsSound (
      run memory client_json new
        (connecting (reached answered) ∷ calling (refused "gone") add ∷ closing ∷ []))
    × Dropped (
        call memory client_json too_slow add (
          run memory client_json new
            (connecting (reached answered) ∷ calling (refused "gone") add ∷ closing ∷ [])))
run-IsSound_example =
    run-IsSound memory client_json
      (connecting (reached answered) ∷ calling (refused "gone") add ∷ closing ∷ []) too_slow add

collect-Finished_example :
    Finished memory client_json (collect memory client_json 9 1000 [] answered)
collect-Finished_example = collect-Finished memory client_json 9 1000 [] answered (omega arith)

abbrev serving : Connection (List ℕ)
serving = record { writer = []; metrics = none; notices = []; limiter = Limiter.new 1000 60000 }

add_valid : validate_request len add ≡ true
unfolding validate_request
add_valid = refl

both-Joined :
    Joined memory client_json sink source server_json calc default_config "alice" 4 2
      (2 ∷ [])
      answered
      (frame msg_request (2 ∷ []))
      serving
unfolding put write_message server_turn read_message read_bytes serve_message validate_request
both-Joined = record { client_open = tt; server_open = tt; up = refl; down = refl }

-- A JSON library of one chunk and one end.
abbrev chunk : StreamMessage String
chunk = new_message "r1" 0 "one"

abbrev completed : StreamResponse String
completed = record {
  request_id = "r1";
  mode = "result";
  status = "completed";
  final_payload = none;
}

abbrev stream_json : ClientJson
stream_json = record client_json {
  read_stream_message = λ b. io_ok chunk;
  read_stream_response = λ b. io_ok completed;
}

abbrev streaming_socket : Socket memory
streaming_socket = record {
  reader =
      frame msg_stream_start (10 ∷ [])
      ++ (frame msg_stream_chunk (5 ∷ [])
          ++ (frame msg_stream_chunk (6 ∷ []) ++ [])
          ++ frame msg_stream_end (11 ∷ []));
  writer = [];
}

do_call_streaming-chunks_example :
    (s' : Socket memory) × (do_call_streaming memory stream_json 4 1000 add streaming_socket
      ≡ (ok (some (chunk ∷ chunk ∷ [])), s'))
    × (s'.writer ≡ frame msg_stream_request (2 ∷ []))
do_call_streaming-chunks_example =
    do_call_streaming-chunks memory stream_json 1000 add (2 ∷ []) (10 ∷ []) (11 ∷ [])
      ((5 ∷ [], chunk) ∷ (6 ∷ [], chunk) ∷ []) completed streaming_socket refl (omega arith) tt
      (λ r. refl) (omega arith) ((omega arith, refl), ((omega arith, refl), tt)) (omega arith) refl
      refl refl
