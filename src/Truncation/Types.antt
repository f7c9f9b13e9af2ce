-- ===== src/Truncation/Types.antt =====
-- internal/provider/message.go: messages and the estimate of their tokens.
use modeltap.Prelude.Text.{byte_length}
use modeltap.Prelude.{
  ℕ, ◌+◌, ◌/◌, String, List, [], ◌∷◌, Option, none, some, is_empty, if◌then◌else◌,
}

pub record ToolCall : Type 0 where
  pub id : String
  pub name : String
  pub input : String

pub record ToolResult : Type 0 where
  pub tool_call_id : String
  pub output : String
  pub status : String
  pub error : String
  pub reason : String

pub record Attachment : Type 0 where
  pub path : String
  pub raw : String
  pub content : String
  pub content_type : String
  pub transform : String

-- The metadata are left out: nothing here reads them.
pub record Message : Type 0 where
  pub role : String
  pub content : String
  pub tool_calls : List ToolCall
  pub tool_results : List ToolResult
  pub attachments : List Attachment

-- `Marshal` of encoding/json for the two lists; it fails on an input that is no JSON.
pub record Encoding : Type 0 where
  pub marshal_calls : List ToolCall → Option String
  pub marshal_results : List ToolResult → Option String

unfoldable pub estimate_tokens : String → ℕ
unfolding byte_length
estimate_tokens s = byte_length s / 4

module _ (enc : Encoding) where
  abbrev tokens_of : Option String → ℕ
  tokens_of none = 0
  tokens_of (some data_) = estimate_tokens data_

  abbrev attachment_tokens : List Attachment → ℕ
  attachment_tokens [] = 0
  attachment_tokens (a ∷ rest) = estimate_tokens a.content + attachment_tokens rest

  unfoldable pub estimate_message_tokens : Message → ℕ
  estimate_message_tokens m =
      estimate_tokens m.content
      + (if is_empty m.tool_calls then 0 else tokens_of (enc.marshal_calls m.tool_calls))
      + (if is_empty m.tool_results then 0 else tokens_of (enc.marshal_results m.tool_results))
      + attachment_tokens m.attachments
