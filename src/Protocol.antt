-- ===== src/Protocol.antt =====
-- src/protocol.rs: the bodies of the messages. The type of JSON values is serde_json's, and so a
-- parameter.
use xprotocol.Prelude.{String, Bool, Option, none, some, List}

pub record HandshakeRequest : Type 0 where
  pub client_id : String
  pub service_name : String
  pub capabilities : List String

pub record HandshakeResponse : Type 0 where
  pub server_id : String
  pub session_id : String
  pub success : Bool
  pub encoding : String

pub record ServiceRequest (Value : Type 0) : Type 0 where
  pub request_id : String
  pub correlation_id : String
  pub service_name : String
  pub method : String
  pub payload : Value
  pub topic : Option String

pub record ServiceResponse (Value : Type 0) : Type 0 where
  pub request_id : String
  pub correlation_id : String
  pub status : String
  pub payload : Value
  pub error : Option String

module _ {Value : Type 0} where
  -- the first two arguments are what `Uuid::new_v4` gives
  unfoldable pub new_request : String → String → String → String → Value → ServiceRequest Value
  new_request request_id correlation_id service method payload = record {
    request_id = request_id;
    correlation_id = correlation_id;
    service_name = service;
    method = method;
    payload = payload;
    topic = none;
  }

  unfoldable pub with_topic : String → ServiceRequest Value → ServiceRequest Value
  with_topic topic r = record r { topic = some topic }

  unfoldable pub success_response : ServiceRequest Value → Value → ServiceResponse Value
  success_response request payload = record {
    request_id = request.request_id;
    correlation_id = request.correlation_id;
    status = "success";
    payload = payload;
    error = none;
  }

  -- `null` is `serde_json::Value::Null`
  unfoldable pub error_response : Value → ServiceRequest Value → String → ServiceResponse Value
  error_response null request e = record {
    request_id = request.request_id;
    correlation_id = request.correlation_id;
    status = "error";
    payload = null;
    error = some e;
  }
