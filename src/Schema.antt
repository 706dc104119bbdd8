-- ===== src/Schema.antt =====
-- src/schema.rs: the description of a service. The JSON values of its fields are serde_json's.
use xprotocol.Prelude.{String, Option, none, some, List, [], ◌∷◌, map}
use xprotocol.Error.{Result, IoResult, from_json}
use xprotocol.Streaming.{StreamMode, as_str}
use xprotocol.Server.Connection.{Handler}

pub record ServiceCapability : Type 0 where
  pub name : String
  pub description : String
  pub version : Option String

pub record ServiceSchema (Value : Type 0) : Type 0 where
  pub service_name : String
  pub version : String
  pub input_schema : Value
  pub output_schema : Value
  pub state_schema : Option Value
  pub capabilities : List ServiceCapability
  pub streaming_modes : List String
  pub metadata : Value

module _ {Value : Type 0} where
  -- the first three arguments are the three `json!` literals of `ServiceSchema::new`
  unfoldable pub new_schema : Value → Value → Value → String → String → ServiceSchema Value
  new_schema input output empty service_name version = record {
    service_name = service_name;
    version = version;
    input_schema = input;
    output_schema = output;
    state_schema = none;
    capabilities = [];
    streaming_modes = "result" ∷ [];
    metadata = empty;
  }

  unfoldable pub with_input_schema : Value → ServiceSchema Value → ServiceSchema Value
  with_input_schema schema s = record s { input_schema = schema }

  unfoldable pub with_output_schema : Value → ServiceSchema Value → ServiceSchema Value
  with_output_schema schema s = record s { output_schema = schema }

  unfoldable pub with_state_schema : Value → ServiceSchema Value → ServiceSchema Value
  with_state_schema schema s = record s { state_schema = some schema }

  unfoldable pub with_capabilities :
      List ServiceCapability → ServiceSchema Value → ServiceSchema Value
  with_capabilities caps s = record s { capabilities = caps }

  unfoldable pub with_streaming_modes : List StreamMode → ServiceSchema Value → ServiceSchema Value
  with_streaming_modes modes s = record s { streaming_modes = map as_str modes }

  unfoldable pub with_schema_metadata : Value → ServiceSchema Value → ServiceSchema Value
  with_schema_metadata metadata s = record s { metadata = metadata }

  -- `print` is `serde_json::to_string_pretty`
  unfoldable pub to_json :
      (ServiceSchema Value → IoResult String) → ServiceSchema Value → Result String
  to_json print s = from_json (print s)

  -- the default of `ServiceSchemaProvider`, and that of a shared handler
  abbrev pub default_schema : Value → Value → Value → ServiceSchema Value
  default_schema input output empty = new_schema input output empty "unknown" "1.0"

  abbrev pub handler_schema : Value → Value → Value → Handler Value → ServiceSchema Value
  handler_schema input output empty h = new_schema input output empty h.service_name "1.0"
