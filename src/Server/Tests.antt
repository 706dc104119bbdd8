-- ===== src/Server/Tests.antt =====
-- src/server.rs: the theorems at a concrete handler, on streams in memory.
use xprotocol.Prelude.{
  ℕ, length, ◌≡◌, ◌≤◌, refl, String, true, false, none, some, List, [], ◌∷◌, arith, len,
}
use xprotocol.Error.{connection_failed, ok, err, io_ok, io_err}
use xprotocol.Protocol.{ServiceRequest}
use xprotocol.Metrics.{new_metrics, request_start, request_end}
use xprotocol.Auth.Limiter
use xprotocol.Wire.{AsyncWrite, msg_handshake, msg_request, msg_response, write_message}
use xprotocol.Wire.Memory.{sink}
use xprotocol.Server.{default_config, validate_request}
use xprotocol.Server.Counting.{run, accepted, ended, run-le-max_connections}
use xprotocol.Server.Connection.{
  Json, Handler, Connection, received, too_late, map_metrics, serve_message, handle_connection,
}
use xprotocol.Server.Balance.{Ends}
use xprotocol.Server.Lifetime.{handle_connection-Ends}
use xprotocol.Server.Running
use xprotocol.Server.Running.{Event, greets, run_events}
use xprotocol.Server.Welcoming.{times, opened, welcomed-le-max_requests}
use xprotocol.Window.{kept}
use xprotocol.Server.Answering.{Answers, serve_message_request, serve_message_leaks}

run-le-max_connections_example :
    (run 2 0 (accepted ∷ accepted ∷ accepted ∷ ended ∷ []) ≡ 1)
    × (run 2 0 (accepted ∷ accepted ∷ accepted ∷ ended ∷ []) ≤ 2)
run-le-max_connections_example =
    run-le-max_connections 2 0 (accepted ∷ accepted ∷ accepted ∷ ended ∷ []) (omega arith)
      (omega arith) (omega arith, tt)

abbrev add : ServiceRequest String
add = record {
  request_id = "r1";
  correlation_id = "c1";
  service_name = "calc";
  method = "add";
  payload = "2 2";
  topic = none;
}

-- a JSON library for one request and one response
abbrev json : Json
json = record {
  Value = String;
  read_handshake =
      λ b. io_ok (record { client_id = "alice"; service_name = "calc"; capabilities = [] });
  handshake_body = λ r. io_ok (7 ∷ []);
  error_body = λ s. io_ok (8 ∷ []);
  read_request = λ b. io_ok add;
  response_body = λ r. io_ok (9 ∷ []);
  stream_mode = λ v. none;
  start_body = λ i m. io_ok (10 ∷ []);
  end_body = λ i s v. io_ok (11 ∷ []);
  schema_body = λ n. io_ok (12 ∷ []);
  bytes = len;
}

abbrev calc : Handler String
calc = record {
  service_name = "calc";
  on_handshake =
      λ r. record { server_id = "calc"; session_id = "s1"; success = true; encoding = "json" };
  handle = λ now r. record {
    request_id = r.request_id;
    correlation_id = r.correlation_id;
    status = "success";
    payload = "4";
    error = none;
  };
}

abbrev fresh : Connection (List ℕ)
fresh = record {
  writer = [];
  metrics = some new_metrics;
  notices = [];
  limiter = Limiter.new 1000 60000;
}

handle_connection-Ends_example : Ends 0 0 fresh (
    handle_connection sink json calc default_config 3
      (ok (msg_handshake, []))
      (received 4 2 msg_request (1 ∷ []) ∷ too_late ∷ [])
      fresh)
handle_connection-Ends_example =
    handle_connection-Ends sink json calc default_config 3 (ok (msg_handshake, []))
      (received 4 2 msg_request (1 ∷ []) ∷ too_late ∷ []) fresh

add_valid : validate_request len add ≡ true
unfolding validate_request
add_valid = refl

serve_message_request_example :
    (d : Connection (List ℕ)) × Answers sink json calc default_config "alice" 4 2 msg_request
      (1 ∷ [])
      msg_response
      (9 ∷ [])
      fresh
      d
    × (d.metrics ≡ some (request_end 2 true false (request_start new_metrics)))
unfolding map_metrics
serve_message_request_example =
    serve_message_request sink json calc default_config "alice" 4 2 (1 ∷ []) (9 ∷ []) add fresh
      (omega arith) refl add_valid refl (omega arith) tt

-- a stream whose peer is gone
abbrev gone : AsyncWrite
gone = record {
  W = Unit;
  write_all = λ b w. (io_err "broken pipe", w);
  flush = λ w. (io_err "broken pipe", w);
  sent = λ w. [];
  IsOpen = λ w. ⊥;
  write_all_open = λ w b h. absurd h;
  flush_open = λ w h. absurd h;
}

abbrev cut_off : Connection (Unit {0})
cut_off = record {
  writer = tt;
  metrics = some new_metrics;
  notices = [];
  limiter = Limiter.new 1000 60000;
}

not_written :
    write_message gone msg_response (9 ∷ []) tt ≡ (err (connection_failed "broken pipe"), tt)
unfolding write_message
not_written = refl

serve_message_leaks_example :
    ((serve_message gone json calc default_config "alice"
        (received 4 2 msg_request (1 ∷ []))
        cut_off).0
      ≡ err (connection_failed "broken pipe"))
    × ((serve_message gone json calc default_config "alice"
          (received 4 2 msg_request (1 ∷ []))
          cut_off).1.metrics
        ≡ some (request_start new_metrics))
unfolding map_metrics
serve_message_leaks_example =
    serve_message_leaks gone json calc default_config "alice" 4 2 (1 ∷ []) (9 ∷ []) add
      (connection_failed "broken pipe") tt cut_off (omega arith) refl add_valid refl not_written

-- a connection, and then three of one client, the last with a message that is no handshake
abbrev arrivals : List (Event (List ℕ))
arrivals =
    Running.accepted
    ∷ greets 5 [] (ok (msg_handshake, []))
    ∷ Running.ended
    ∷ greets 6 [] (ok (msg_handshake, []))
    ∷ Running.failed
    ∷ greets 7 [] (ok (msg_request, []))
    ∷ []

welcomed-le-max_requests_example :
    length (
      kept 60000 9 (
        times "alice"
          (run_events sink json calc default_config arrivals
            (opened default_config 0 none)).welcomed))
    ≤ 1000
welcomed-le-max_requests_example =
    welcomed-le-max_requests sink json calc default_config "alice" 3 9 0 none arrivals
      (omega arith, (omega arith, (omega arith, tt))) (omega arith)
