-- ===== src/Grpc/Tests.antt =====
-- src/grpc.rs: the theorems at a concrete handler, with values that are their own encodings.
use xprotocol.Prelude.{ℕ, arith, ◌≡◌, refl, true, some, List, [], ◌∷◌}
use xprotocol.Error.{io_ok}
use xprotocol.Protocol.{ServiceRequest, success_response}
use xprotocol.Server.Connection.{Handler}
use xprotocol.Grpc.{GrpcJson, serve_call, call}
use xprotocol.Grpc.Remote.{RoundTrips, told, call-told}

abbrev bytes_json : GrpcJson
bytes_json = record {
  Value = List ℕ;
  value_body = λ v. io_ok v;
  read_value = λ b. io_ok b;
  print_status = λ s. "status";
}

abbrev reads_back : RoundTrips bytes_json
reads_back = record { read_body = λ v bytes e. ground (arith, e) }

abbrev echo : Handler (List ℕ)
echo = record {
  service_name = "echo";
  on_handshake =
      λ r. record { server_id = "echo"; session_id = "s1"; success = true; encoding = "json" };
  handle = λ now r. success_response r r.payload;
}

abbrev ask : ServiceRequest (List ℕ)
ask = record {
  request_id = "r1";
  correlation_id = "c1";
  service_name = "echo";
  method = "say";
  payload = 1 ∷ 2 ∷ [];
  topic = some "t";
}

call-told_example :
    call bytes_json (serve_call bytes_json echo 5) 4 ask
    ≡ told bytes_json echo (echo.handle 5 ask) (io_ok (echo.handle 5 ask).payload)
call-told_example = call-told bytes_json echo 4 5 ask (1 ∷ 2 ∷ []) reads_back refl
