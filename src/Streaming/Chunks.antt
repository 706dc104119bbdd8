-- ===== src/Streaming/Chunks.antt =====
-- src/streaming.rs: the shape of the streams.
use xprotocol.Prelude.{ℕ, ◌+◌, ◌≡◌, refl, String, Option, none, some, List, [], ◌∷◌}
use xprotocol.Protocol.{ServiceRequest, ServiceResponse}
use xprotocol.Streaming.{
  StreamMode, messages, values, updates, result, StreamMessage, handle_streaming,
  default_handle_streaming,
}

module _ {Value : Type 0} where
  -- The chunks bear the id, and are numbered one after the other.
  abbrev pub Numbered : String → ℕ → List (StreamMessage Value) → Type 0
  Numbered id n [] = Unit
  Numbered id n (c ∷ cs) = (c.request_id ≡ id) × (c.chunk_index ≡ n) × Numbered id (n + 1) cs

  abbrev pub last_content : List (StreamMessage Value) → Option Value
  last_content [] = none
  last_content (c ∷ []) = some c.content
  last_content (c ∷ d ∷ ds) = last_content (d ∷ ds)

module _ {Value : Type 0} (status_value : String → Value) (update_value : Value → Value)
    (completed_value : Value → Value) (handle : ServiceRequest Value → ServiceResponse Value)
    (request : ServiceRequest Value) where
  abbrev pub stream : StreamMode → List (StreamMessage Value)
  stream = handle_streaming status_value update_value completed_value handle request

  abbrev pub default_stream : StreamMode → List (StreamMessage Value)
  default_stream = default_handle_streaming status_value update_value completed_value handle request

  -- what a stream of the mode ends in
  abbrev pub final : StreamMode → Value → Value
  final messages payload = payload
  final values payload = payload
  final updates payload = update_value payload
  final result payload = completed_value payload

  -- In every mode, the chunks of both handlers bear the response's id and are numbered from 0
  -- without a gap, and the trait's own stream ends in the mode's form of the response's payload.
  pub handle_streaming-Numbered :
      (mode : StreamMode)
      → Numbered (handle request).request_id 0 (stream mode)
        × Numbered (handle request).request_id 0 (default_stream mode)
        × (last_content (stream mode) ≡ some (final mode (handle request).payload))
  unfolding handle_streaming default_handle_streaming
  handle_streaming-Numbered messages = ((refl, refl, tt), (refl, refl, tt), refl)
  handle_streaming-Numbered values = ((refl, refl, (refl, refl, tt)), (refl, refl, tt), refl)
  handle_streaming-Numbered updates = ((refl, refl, tt), (refl, refl, tt), refl)
  handle_streaming-Numbered result =
      ((refl, refl, (refl, refl, (refl, refl, tt))), (refl, refl, tt), refl)
