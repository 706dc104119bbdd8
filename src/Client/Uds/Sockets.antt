-- ===== src/Client/Uds/Sockets.antt =====
-- src/client.rs: one message each way on a socket.
use xprotocol.Prelude.{ℕ, ◌+◌, ◌≤◌, ◌≡◌, refl, true, List, ◌++◌, length}
use xprotocol.Error.{ok}
use xprotocol.Wire.{max_message_size}
use xprotocol.Wire.Frames.{frame, write_message-frame}
use xprotocol.Wire.Decoding.{read_message-frame}
use xprotocol.Client.Uds.{Link, Socket, put, await_message}

module _ {l : Link} where
  pub put-frame :
      (msg_type : ℕ) (payload : List ℕ) (s : Socket l)
      → l.output.IsOpen s.writer
      → 2 + length payload ≤ max_message_size
      → (w : l.output.W) × (put msg_type payload s ≡ (ok tt, record s { writer = w }))
        × (l.output.sent w ≡ l.output.sent s.writer ++ frame msg_type payload)
        × l.output.IsOpen w
  unfolding put
  put-frame msg_type payload s o small =
      let (w, e, sent, open_w) = write_message-frame l.output msg_type payload s.writer o small in
      (w, rw e refl, sent, open_w)

  pub await_message-frame :
      (limit msg_type : ℕ) (payload rest : List ℕ) (s : Socket l)
      → 2 + length payload ≤ max_message_size
      → l.in_time limit s.reader ≡ true
      → l.input.pending s.reader ≡ frame msg_type payload ++ rest
      → (r : l.input.R) × (await_message limit s
          ≡ (ok (msg_type, payload), record s { reader = r }))
        × (l.input.pending r ≡ rest)
  unfolding await_message
  await_message-frame limit msg_type payload rest s small timely h =
      let (r, e, p) = read_message-frame l.input msg_type payload rest s.reader small h in
      (r, rw timely (rw e refl), p)
