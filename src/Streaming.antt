-- ===== src/Streaming.antt =====
-- src/streaming.rs: stream modes, and the messages that the two handlers make of a response.
pub mod Modes
pub mod Chunks
use xprotocol.Prelude.{
  ℕ, String, Bool, true, Option, none, some, List, [], ◌∷◌, str_eq, str_append, if◌then◌else◌,
}
use xprotocol.Protocol.{ServiceRequest, ServiceResponse}

pub data StreamMode : Type 0 where
  messages values updates result : StreamMode

unfoldable pub as_str : StreamMode → String
as_str messages = "messages"
as_str values = "values"
as_str updates = "updates"
as_str result = "result"

unfoldable pub from_str : String → Option StreamMode
from_str s =
    if str_eq s "messages"
    then some messages
    else if str_eq s "values"
    then some values
    else if str_eq s "updates"
    then some updates
    else if str_eq s "result"
    then some result
    else none

pub record StreamMessage (Value : Type 0) : Type 0 where
  pub request_id : String
  pub chunk_index : ℕ
  pub content : Value
  pub metadata : Option Value

pub record StreamResponse (Value : Type 0) : Type 0 where
  pub request_id : String
  pub mode : String
  pub status : String
  pub final_payload : Option Value

module _ {Value : Type 0} where
  unfoldable pub new_message : String → ℕ → Value → StreamMessage Value
  new_message request_id chunk_index content = record {
    request_id = request_id;
    chunk_index = chunk_index;
    content = content;
    metadata = none;
  }

  unfoldable pub with_metadata : Value → StreamMessage Value → StreamMessage Value
  with_metadata metadata m = record m { metadata = some metadata }

  unfoldable pub stream_started : String → String → StreamResponse Value
  stream_started request_id mode = record {
    request_id = request_id;
    mode = mode;
    status = "streaming";
    final_payload = none;
  }

  unfoldable pub stream_completed : String → Value → StreamResponse Value
  stream_completed request_id payload = record {
    request_id = request_id;
    mode = "result";
    status = "completed";
    final_payload = some payload;
  }

  unfoldable pub stream_error : String → String → StreamResponse Value
  stream_error request_id e = record {
    request_id = request_id;
    mode = "result";
    status = str_append "error: " e;
    final_payload = none;
  }

-- `json!({"status": s})`, `json!({"type": "update", "data": v})` and
-- `json!({"status": "completed", "payload": v})`
module _ {Value : Type 0} (status_value : String → Value) (update_value : Value → Value)
    (completed_value : Value → Value) (handle : ServiceRequest Value → ServiceResponse Value) where
  stream_of : ServiceResponse Value → StreamMode → List (StreamMessage Value)
  unfolding new_message
  stream_of r messages = new_message r.request_id 0 r.payload ∷ []
  stream_of r values =
      new_message r.request_id 0 (status_value "processing")
      ∷ new_message r.request_id 1 r.payload
      ∷ []
  stream_of r updates = new_message r.request_id 0 (update_value r.payload) ∷ []
  stream_of r result =
      new_message r.request_id 0 (status_value "started")
      ∷ new_message r.request_id 1 (status_value "processing")
      ∷ new_message r.request_id 2 (completed_value r.payload)
      ∷ []

  -- the trait's own `StreamingHandler::handle_streaming`
  unfoldable pub handle_streaming : ServiceRequest Value → StreamMode → List (StreamMessage Value)
  unfolding stream_of
  handle_streaming request mode = stream_of (handle request) mode

  default_stream_of : ServiceResponse Value → StreamMode → List (StreamMessage Value)
  unfolding new_message
  default_stream_of r messages = new_message r.request_id 0 r.payload ∷ []
  default_stream_of r values = new_message r.request_id 0 r.payload ∷ []
  default_stream_of r updates = new_message r.request_id 0 r.payload ∷ []
  default_stream_of r result = new_message r.request_id 0 (completed_value r.payload) ∷ []

  -- that of `DefaultStreamingHandler`
  unfoldable pub default_handle_streaming :
      ServiceRequest Value → StreamMode → List (StreamMessage Value)
  unfolding default_stream_of
  default_handle_streaming request mode = default_stream_of (handle request) mode

-- of the trait, and of `DefaultStreamingHandler`, which says the same
abbrev pub supported_stream_modes : List StreamMode
supported_stream_modes = result ∷ []

abbrev pub supports_streaming : Bool
supports_streaming = true
