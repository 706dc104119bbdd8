-- ===== src/Client/Uds/Network/Tests.antt =====
-- src/client.rs and src/server.rs: a connection between them, over sockets in memory.
use xprotocol.Prelude.{
  ℕ, ◌≡◌, refl, String, true, false, none, some, List, [], ◌∷◌, ◌++◌, arith, len,
}
use xprotocol.Error.{encoding, ok, err, io_ok}
use xprotocol.Auth.Limiter
use xprotocol.Wire.Memory.{sink, source}
use xprotocol.Streaming.{result}
use xprotocol.Server.{default_config, validate_request}
use xprotocol.Server.Connection.{Connection}
use xprotocol.Client.Uds.{Socket, ClientJson, new, hello}
use xprotocol.Client.Uds.Memory.{memory, add, four, client_json, server_json, calc}
use xprotocol.Client.Uds.Network.{talk_stream}
use xprotocol.Client.Uds.Streamed.{Streams, talk_stream_undecoded}
use xprotocol.Client.Uds.Network.{Network, Asked, Pair, meet, talk_all}
use xprotocol.Client.Uds.Conversation.{Quiet, Agreed}
use xprotocol.Client.Uds.Meeting.{Welcome, meet-talk_all}
use xprotocol.Protocol.{HandshakeResponse}
use xprotocol.Server.Connection.{Json}
use xprotocol.Prelude.Dict.{get}

abbrev serving : Connection (List ℕ)
serving = record { writer = []; metrics = none; notices = []; limiter = Limiter.new 1000 60000 }

add_valid : validate_request len add ≡ true
unfolding validate_request
add_valid = refl

-- Two sockets in memory, and JSON libraries that also know the handshake.
abbrev wire : Network memory source
wire = record {
  arrive_up = λ bytes r. r ++ bytes;
  arrive_down = λ bytes r. r ++ bytes;
  pending-arrive_up = λ bytes r. refl;
  pending-arrive_down = λ bytes r. refl;
  prompt = λ limit r p. refl;
}

abbrev welcome_response : HandshakeResponse
welcome_response = record {
  server_id = "calc";
  session_id = "s1";
  success = true;
  encoding = "json";
}

abbrev meeting_client : ClientJson
meeting_client = record client_json { read_handshake_response = λ b. io_ok welcome_response }

abbrev meeting_server : Json
meeting_server = record server_json { read_handshake = λ b. io_ok (hello "protocol-client") }

abbrev fresh_socket : Socket memory
fresh_socket = record { reader = []; writer = [] }

abbrev strangers : Pair memory meeting_client sink source meeting_server calc default_config wire
strangers = record { client = new; peer = record { reader = []; conn = serving } }

abbrev adding : Asked String
adding = record { now = 4; latency = 2; request = add }

adding-Agreed :
    Agreed memory meeting_client sink source meeting_server calc default_config wire adding four
adding-Agreed = record {
  body = 2 ∷ [];
  answer = 9 ∷ [];
  request = add;
  encoded = refl;
  fits = omega arith;
  small = omega arith;
  read = refl;
  valid = add_valid;
  answered = refl;
  answer_fits = omega arith;
  decoded = refl;
}

abbrev greeting :
    Welcome memory meeting_client sink source meeting_server calc default_config wire 3 serving
unfolding Limiter.check Limiter.new get
greeting = record {
  body = 1 ∷ [];
  ack = 7 ∷ [];
  encoded = refl;
  fits = omega arith;
  small = omega arith;
  read = refl;
  passes = refl;
  answered = refl;
  ack_fits = omega arith;
  decoded = refl;
  success = refl;
}

meet-talk_all_example :
    (w1 : Pair memory meeting_client sink source meeting_server calc default_config wire)
    × (w2 : Pair memory meeting_client sink source meeting_server calc default_config wire) × (meet
          memory meeting_client sink source meeting_server calc default_config wire 3 fresh_socket
          strangers
        ≡ (ok tt, (ok "protocol-client", w1)))
    × (w1.client.session_id ≡ some "s1")
    × (talk_all memory meeting_client sink source meeting_server calc default_config wire
          "protocol-client"
          (adding ∷ adding ∷ [])
          w1
        ≡ (ok four ∷ ok four ∷ [], w2))
    × Quiet memory meeting_client sink source meeting_server calc default_config wire w2
unfolding greeting
meet-talk_all_example =
    meet-talk_all memory meeting_client sink source meeting_server calc default_config wire 3
      fresh_socket strangers greeting ((adding, four) ∷ (adding, four) ∷ []) tt tt refl refl
      (adding-Agreed, (adding-Agreed, tt))

adding-Streams :
    Streams memory meeting_client sink source meeting_server calc default_config wire result adding
      (11 ∷ [])
adding-Streams = record {
  body = 2 ∷ [];
  begin = 10 ∷ [];
  request = add;
  enabled = refl;
  encoded = refl;
  fits = omega arith;
  small = omega arith;
  read = refl;
  started = refl;
  begin_fits = omega arith;
  ended = refl;
  finish_fits = omega arith;
}

talk_stream_undecoded_example :
    (w : Pair memory meeting_client sink source meeting_server calc default_config wire)
    × (talk_stream memory meeting_client sink source meeting_server calc default_config wire
          "protocol-client" 5 result adding fresh_socket strangers
        ≡ (err (encoding "not an end"), w))
    × (w.client ≡ record strangers.client { connected = false; stream = none })
    × sink.IsOpen w.peer.conn.writer
    × (source.pending w.peer.reader ≡ [])
talk_stream_undecoded_example =
    talk_stream_undecoded memory meeting_client sink source meeting_server calc default_config wire
      "protocol-client" 3 result adding fresh_socket strangers (11 ∷ []) "not an end" adding-Streams
      refl tt tt refl refl
