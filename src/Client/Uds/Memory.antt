-- ===== src/Client/Uds/Memory.antt =====
-- Sockets in memory, a JSON library that knows one request and one response, and a handler that gives
-- that response: what the tests of the clients and of the TCP server use.
use xprotocol.Prelude.{String, true, none, [], ◌∷◌, len}
use xprotocol.Error.{io_ok, io_err}
use xprotocol.Protocol.{ServiceRequest, ServiceResponse}
use xprotocol.Wire.Memory.{sink, source}
use xprotocol.Server.Connection.{Json, Handler}
use xprotocol.Client.Uds.{Link, ClientJson}

abbrev pub memory : Link
memory = record { output = sink; input = source; in_time = λ d r. true }

abbrev pub add : ServiceRequest String
add = record {
  request_id = "r1";
  correlation_id = "c1";
  service_name = "calc";
  method = "add";
  payload = "2 2";
  topic = none;
}

abbrev pub four : ServiceResponse String
four = record {
  request_id = "r1";
  correlation_id = "c1";
  status = "success";
  payload = "4";
  error = none;
}

abbrev pub client_json : ClientJson
client_json = record {
  Value = String;
  hello_body = λ r. io_ok (1 ∷ []);
  read_handshake_response = λ b. io_err "cut off";
  request_body = λ r. io_ok (2 ∷ []);
  read_response = λ b. io_ok four;
  with_stream_mode = λ m v. v;
  read_stream_message = λ b. io_err "not a chunk";
  read_stream_response = λ b. io_err "not an end";
  read_text = λ b. io_ok "no";
  read_schema = λ b. io_err "no schema";
}

abbrev pub server_json : Json
server_json = record {
  Value = String;
  read_handshake = λ b. io_err "no handshake";
  handshake_body = λ r. io_ok (7 ∷ []);
  error_body = λ s. io_ok (8 ∷ []);
  read_request = λ b. io_ok add;
  response_body = λ r. io_ok (9 ∷ []);
  stream_mode = λ v. none;
  start_body = λ i m. io_ok (10 ∷ []);
  end_body = λ i s v. io_ok (11 ∷ []);
  schema_body = λ n. io_ok (12 ∷ []);
  bytes = len;
}

abbrev pub calc : Handler String
calc = record {
  service_name = "calc";
  on_handshake =
      λ r. record { server_id = "calc"; session_id = "s1"; success = true; encoding = "json" };
  handle = λ now r. four;
}
