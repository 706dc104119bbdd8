-- ===== src/Client/Uds/Chunks.antt =====
-- src/client.rs: what `do_call_streaming_internal` collects.
use mathlib.Core.List.{append_assoc, append-nil}
use text.Mathlib.Text.{starts_with}
use xprotocol.Prelude.{
  ℕ, zero, suc, ◌+◌, ◌≤◌, ◌<◌, ◌≡◌, refl, sym, ◌∙◌, true, false, Option, some, List, [], ◌∷◌, ◌++◌,
  length, All, map, arith,
}
use xprotocol.Error.{Result, ok, io_ok}
use xprotocol.Protocol.{ServiceRequest}
use xprotocol.Streaming.{StreamMessage, StreamResponse}
use xprotocol.Wire.{
  max_message_size, msg_stream_request, msg_stream_start, msg_stream_chunk, msg_stream_end,
}
use xprotocol.Wire.Frames.{frame}
use xprotocol.Client.Uds.{
  Link, Socket, ClientJson, turn, add_chunk, at_end, take_turn, collect, put_json, put_encoded,
  do_call_streaming,
}
use xprotocol.Client.Uds.Sockets.{put-frame, await_message-frame}

module _ (l : Link) (j : ClientJson) where
  open j use {Value}

  -- a chunk's body, and the message that it is
  abbrev pub Chunk : Type 0
  Chunk = List ℕ × StreamMessage Value

  abbrev pub Reads : Chunk → Type 0
  Reads (body, m) = (2 + length body ≤ max_message_size) × (j.read_stream_message body ≡ io_ok m)

  abbrev pub chunk_frames : List Chunk → List ℕ
  chunk_frames [] = []
  chunk_frames ((body, m) ∷ cs) = frame msg_stream_chunk body ++ chunk_frames cs

  abbrev pub messages : List Chunk → List (StreamMessage Value)
  messages cs = map (λ (c : Chunk). c.1) cs

  -- Every message comes before the timeout.
  abbrev pub AlwaysInTime : ℕ → Type 0
  AlwaysInTime limit = (r : l.input.R) → l.in_time limit r ≡ true

  -- one message that the loop goes on behind
  collect-turn :
      (fuel limit msg_type : ℕ) (body rest : List ℕ) (got more : List (StreamMessage Value))
      (s : Socket l)
      → AlwaysInTime limit
      → 2 + length body ≤ max_message_size
      → l.input.pending s.reader ≡ frame msg_type body ++ rest
      → ((r : l.input.R)
          → (b : Result (Option (List (StreamMessage Value))) × Socket l) × (take_turn l j
                (collect l j fuel limit)
                (turn l j got (msg_type, body))
                (record s { reader = r })
              ≡ b)
            × (b ≡ collect l j fuel limit more (record s { reader = r })))
      → (r : l.input.R) × (l.input.pending r ≡ rest)
        × (collect l j (suc fuel) limit got s
            ≡ collect l j fuel limit more (record s { reader = r }))
  unfolding collect
  collect-turn fuel limit msg_type body rest got more s timely fits arrives goes =
      let (r, e, p) =
        await_message-frame limit msg_type body rest s fits (timely s.reader) arrives in
      let (b, taken, same) = goes r in (r, p, rw e (taken ∙ same))

  collect-chunk :
      (fuel limit : ℕ) (body rest : List ℕ) (m : StreamMessage Value)
      (got : List (StreamMessage Value)) (s : Socket l)
      → AlwaysInTime limit
      → Reads (body, m)
      → l.input.pending s.reader ≡ frame msg_stream_chunk body ++ rest
      → (r : l.input.R) × (l.input.pending r ≡ rest)
        × (collect l j (suc fuel) limit got s
            ≡ collect l j fuel limit (got ++ m ∷ []) (record s { reader = r }))
  unfolding turn add_chunk take_turn
  collect-chunk fuel limit body rest m got s timely (fits, decoded) arrives =
      collect-turn fuel limit msg_stream_chunk body rest got (got ++ m ∷ []) s timely fits arrives
        (λ r. (_, rw decoded refl, refl))

  collect-start :
      (fuel limit : ℕ) (body rest : List ℕ) (got : List (StreamMessage Value)) (s : Socket l)
      → AlwaysInTime limit
      → 2 + length body ≤ max_message_size
      → l.input.pending s.reader ≡ frame msg_stream_start body ++ rest
      → (r : l.input.R) × (l.input.pending r ≡ rest)
        × (collect l j (suc fuel) limit got s
            ≡ collect l j fuel limit got (record s { reader = r }))
  unfolding turn take_turn
  collect-start fuel limit body rest got s timely fits arrives =
      collect-turn fuel limit msg_stream_start body rest got got s timely fits arrives
        (λ r. (_, refl, refl))

  collect-end :
      (fuel limit : ℕ) (body : List ℕ) (response : StreamResponse Value)
      (got : List (StreamMessage Value)) (s : Socket l)
      → AlwaysInTime limit
      → 2 + length body ≤ max_message_size
      → j.read_stream_response body ≡ io_ok response
      → starts_with response.status "error" ≡ false
      → l.input.pending s.reader ≡ frame msg_stream_end body
      → (r : l.input.R) × (collect l j (suc fuel) limit got s
          ≡ (ok (some got), record s { reader = r }))
  unfolding collect turn at_end take_turn
  collect-end fuel limit body response got s timely fits decoded fine arrives =
      let (r, e, p) =
        await_message-frame limit msg_stream_end body [] s fits (timely s.reader)
          (arrives ∙ sym (append-nil (frame msg_stream_end body))) in
      (r, rw e (rw decoded (rw fine refl)))

  collect-chunks :
      (fuel limit : ℕ) (cs : List Chunk) (last : List ℕ) (response : StreamResponse Value)
      (got : List (StreamMessage Value)) (s : Socket l)
      → AlwaysInTime limit
      → All Reads cs
      → 2 + length last ≤ max_message_size
      → j.read_stream_response last ≡ io_ok response
      → starts_with response.status "error" ≡ false
      → l.input.pending s.reader ≡ chunk_frames cs ++ frame msg_stream_end last
      → length cs < fuel
      → (r : l.input.R) × (collect l j fuel limit got s
          ≡ (ok (some (got ++ messages cs)), record s { reader = r }))
  collect-chunks zero limit cs last response got s timely reads fits decoded fine arrives enough =
      absurd (omega (arith, enough))
  collect-chunks (suc n) limit [] last response got s timely reads fits decoded fine arrives
        enough =
      let (r, e) = collect-end n limit last response got s timely fits decoded fine arrives in
      (r, e ∙ rw (append-nil got) refl)
  collect-chunks (suc n) limit ((body, m) ∷ cs) last response got s timely (read, reads) fits
        decoded fine arrives enough =
      let (r, p, e) =
        collect-chunk n limit body (chunk_frames cs ++ frame msg_stream_end last) m got s timely
          read
          (arrives
            ∙ append_assoc (frame msg_stream_chunk body) (chunk_frames cs)
                (frame msg_stream_end last)) in
      let (r', f) =
        collect-chunks n limit cs last response (got ++ m ∷ []) (record s { reader = r }) timely
          reads fits decoded fine p (omega (arith, enough)) in
      (r', e ∙ f ∙ rw (append_assoc got (m ∷ []) (messages cs)) refl)

  -- A streaming request gets its chunks. The request encodes within the limit and the socket takes
  -- it; the server's answer is a start, any number of chunks and an end that is no error, each within
  -- the limit, decoding, and in time. Then the request is sent, and the result is the messages of
  -- the chunks, all of them and in order, within as many turns as there are messages.
  pub do_call_streaming-chunks :
      (limit : ℕ) (request : ServiceRequest Value) (body start last : List ℕ) (cs : List Chunk)
      (response : StreamResponse Value) (s : Socket l)
      → j.request_body request ≡ io_ok body
      → 2 + length body ≤ max_message_size
      → l.output.IsOpen s.writer
      → AlwaysInTime limit
      → 2 + length start ≤ max_message_size
      → All Reads cs
      → 2 + length last ≤ max_message_size
      → j.read_stream_response last ≡ io_ok response
      → starts_with response.status "error" ≡ false
      → l.input.pending s.reader
        ≡ frame msg_stream_start start ++ (chunk_frames cs ++ frame msg_stream_end last)
      → (s' : Socket l) × (do_call_streaming l j (suc (suc (length cs))) limit request s
          ≡ (ok (some (messages cs)), s'))
        × (l.output.sent s'.writer ≡ l.output.sent s.writer ++ frame msg_stream_request body)
  unfolding do_call_streaming put_json put_encoded
  do_call_streaming-chunks limit request body start last cs response s enc fits o timely start_fits
        reads last_fits decoded fine arrives =
      let (w, e, sent, _) = put-frame {l = l} msg_stream_request body s o fits in
      let (r, p, f) =
        collect-start (suc (length cs)) limit start (chunk_frames cs ++ frame msg_stream_end last)
          [] (record s { writer = w }) timely start_fits arrives in
      let (r', g) =
        collect-chunks (suc (length cs)) limit cs last response []
          (record s { writer = w; reader = r }) timely reads last_fits decoded fine p
          (omega arith) in
      (record s { writer = w; reader = r' }, rw enc (rw e (f ∙ g)), sent)
