-- ===== src/Tcp/Serving.antt =====
-- src/tcp.rs: the loop of `TcpServer::handle_connection`.
use xprotocol.Prelude.{ℕ, zero, suc, ◌+◌, ◌≤◌, ◌≡◌, refl, true, List, ◌++◌, length}
use xprotocol.Error.{ok, io_ok}
use xprotocol.Protocol.{ServiceRequest}
use xprotocol.Wire.{max_message_size, msg_handshake, msg_response, msg_request}
use xprotocol.Wire.Ended.{Ending, read_message-AtEnd}
use xprotocol.Wire.Frames.{frame}
use xprotocol.Wire.Decoding.{read_message-frame}
use xprotocol.Server.Connection.{Json, Handler}
use xprotocol.Client.Uds.{Link, Socket, get_message, set_reader}
use xprotocol.Client.Uds.Sockets.{put-frame}
use xprotocol.Tcp.{turn, turns, next_turn, match_message, on_message, on_request, on_error}

module _ (l : Link) (j : Json) (h : Handler j.Value) where
  turn-AtEnd :
      (x : Ending l.input) (now : ℕ) (s : Socket l)
      → x.AtEnd s.reader
      → (r : l.input.R) × (turn l j h now s ≡ (ok true, record s { reader = r })) × x.AtEnd r
  unfolding turn get_message set_reader match_message on_error
  turn-AtEnd x now s a =
      let (e, r, g, b) = read_message-AtEnd l.input x s.reader a in (r, rw g refl, b)

  -- Once the peer has closed the stream, the loop never ends, and never writes: after any number of
  -- turns it goes on, with the socket's writer as it was.
  pub turns-AtEnd :
      (x : Ending l.input) (n : ℕ) (clock : ℕ → ℕ) (s : Socket l)
      → x.AtEnd s.reader
      → ((turns l j h n clock s).0 ≡ ok true) × ((turns l j h n clock s).1.writer ≡ s.writer)
  unfolding turns next_turn
  turns-AtEnd x zero clock s a = (refl, refl)
  turns-AtEnd x (suc n) clock s a =
      let (r, e, b) = turn-AtEnd x (clock 0) s a in
      rw e (turns-AtEnd x n (λ i. clock (suc i)) (record s { reader = r }) b)

  -- A handshake that comes once the loop runs is taken from the stream and not answered: the turn
  -- goes on, with nothing written and the rest of the stream to come.
  pub turn-handshake :
      (now : ℕ) (payload rest : List ℕ) (s : Socket l)
      → 2 + length payload ≤ max_message_size
      → l.input.pending s.reader ≡ frame msg_handshake payload ++ rest
      → (r : l.input.R) × (turn l j h now s ≡ (ok true, record s { reader = r }))
        × (l.input.pending r ≡ rest)
  unfolding turn get_message set_reader match_message on_message
  turn-handshake now payload rest s fits arrives =
      let (r, e, p) = read_message-frame l.input msg_handshake payload rest s.reader fits arrives in
      (r, rw e refl, p)

  -- A request that decodes, and whose response encodes within the limit, is answered with one frame
  -- of that response, and the loop goes on behind it.
  pub turn-request :
      (now : ℕ) (payload rest answer : List ℕ) (request : ServiceRequest j.Value) (s : Socket l)
      → 2 + length payload ≤ max_message_size
      → l.input.pending s.reader ≡ frame msg_request payload ++ rest
      → j.read_request payload ≡ io_ok request
      → j.response_body (h.handle now request) ≡ io_ok answer
      → 2 + length answer ≤ max_message_size
      → l.output.IsOpen s.writer
      → (s' : Socket l) × (turn l j h now s ≡ (ok true, s'))
        × (l.input.pending s'.reader ≡ rest)
        × (l.output.sent s'.writer ≡ l.output.sent s.writer ++ frame msg_response answer)
  unfolding turn get_message set_reader match_message on_message on_request
  turn-request now payload rest answer request s fits arrives decoded encoded small o =
      let (r, e, p) = read_message-frame l.input msg_request payload rest s.reader fits arrives in
      let (w, f, sent, _) =
        put-frame {l = l} msg_response answer (record s { reader = r }) o small in
      (record s { reader = r; writer = w }, rw e (rw decoded (rw encoded (rw f refl))), p, sent)
