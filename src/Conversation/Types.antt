-- ===== src/Conversation/Types.antt =====
-- internal/provider/message.go, internal/storage/store.go and internal/protocol/messages.go: what a
-- conversation is made of.
use modeltap.Prelude.{ℕ, ◌≡◌, ◌≢◌, String, Bool, List, [], Option, none, some, map, is_empty, true}
use modeltap.Prelude.Int.{ℤ}
use modeltap.Truncation.Types.{ToolCall, ToolResult, Attachment}

-- `metadata` has text values only, as the conversation writes them.
pub record Message : Type 0 where
  pub role : String
  pub content : String
  pub tool_calls : List ToolCall
  pub tool_results : List ToolResult
  pub attachments : List Attachment
  pub metadata : List (String × String)

abbrev pub zero_message : Message
zero_message = record {
  role = "";
  content = "";
  tool_calls = [];
  tool_results = [];
  attachments = [];
  metadata = [];
}

-- The result of a tool as the wire carries it.
pub record SubmittedResult : Type 0 where
  pub tool_call_id : String
  pub status : String
  pub output : String
  pub output_type : String
  pub error : String
  pub reason : String

-- The fields of turn.submit that the conversation reads; the attachments have the same fields on the
-- wire as in a message.
pub record TurnSubmit : Type 0 where
  pub turn_id : String
  pub sequence : ℤ
  pub content : String
  pub attachments : List Attachment
  pub tool_results : List SubmittedResult

-- A float64, by its bits.
abbrev pub Float64 : Type 0
Float64 = ℕ

pub record TurnMetadata : Type 0 where
  pub model : String
  pub provider : String
  pub input_tokens : ℕ
  pub output_tokens : ℕ
  pub cost : Float64
  pub latency_ms : ℕ
  pub files_touched : List String
  pub files_modified : List String

pub record AssistantResponse : Type 0 where
  pub content : String
  pub tool_calls : List ToolCall
  pub model : String
  pub provider : String
  pub input_tokens : ℕ
  pub output_tokens : ℕ
  pub cost : Float64
  pub latency_ms : ℕ

-- A row of the table turns. `none` is a nil raw message.
pub record Turn : Type 0 where
  pub id : String
  pub session_id : String
  pub sequence : ℕ
  pub role : String
  pub content : Option String
  pub model : String
  pub provider : String
  pub input_tokens : ℕ
  pub output_tokens : ℕ
  pub cost : Float64
  pub latency_ms : ℕ
  pub tool_calls : Option String
  pub files_touched : List String
  pub files_modified : List String
  pub compacted : Bool
  pub compacted_summary : String
  pub original_turns : List ℕ
  pub created_at : ℕ

-- encoding/json on messages. `compact` is what `Marshal` does to the raw input of a tool call.
pub record Codec : Type 0 where
  pub marshal : Message → Option String
  pub marshal_calls : List ToolCall → Option String
  pub unmarshal : String → Option Message
  pub compact : String → String

abbrev pub compacted_call : Codec → ToolCall → ToolCall
compacted_call codec t = record t { input = codec.compact t.input }

-- A message after a round trip.
abbrev pub kept : Codec → Message → Message
kept codec m = record m { tool_calls = map (compacted_call codec) m.tool_calls }

-- What encoding/json promises: a message that marshals comes back with compact inputs, one without
-- tool calls marshals, `null` leaves a message at its zero value, and no bytes are an error.
pub record IsCodec (codec : Codec) : Type 0 where
  pub round_trip :
      (m : Message) (raw : String)
      → codec.marshal m ≡ some raw
      → codec.unmarshal raw ≡ some (kept codec m)
  pub plain : (m : Message) → is_empty m.tool_calls ≡ true → codec.marshal m ≢ none
  pub null : codec.unmarshal "null" ≡ some zero_message
  pub no_bytes : codec.unmarshal "" ≡ none
