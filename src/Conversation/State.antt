-- ===== src/Conversation/State.antt =====
-- internal/runtime/conversation.go: the messages of a session in memory.
use modeltap.Prelude.{
  ℕ, ◌+◌, String, Bool, false, not, List, [], ◌∷◌, ◌++◌, Option, none, some, map, length, is_empty,
  select, flat_map, ltb, if◌then◌else◌, ◌==◌,
}
use modeltap.Prelude.Text.{str_eq, text_mem}
use modeltap.Prelude.Int.{ℤ, pos, negsuc}
use modeltap.Truncation.Types.{ToolCall, ToolResult}
use modeltap.Conversation.Types.{
  Message, SubmittedResult, TurnSubmit, TurnMetadata, AssistantResponse, Turn, Codec,
}

pub record Conversation : Type 0 where
  pub session_id : String
  pub turns : List Message
  pub user_sequence : ℕ
  pub storage_sequence : ℕ

abbrev pub new_conversation : String → Conversation
new_conversation session_id = record {
  session_id = session_id;
  turns = [];
  user_sequence = 0;
  storage_sequence = 0;
}

-- The number of turns that were cleared is in front.
unfoldable pub reset : Conversation → ℕ × Conversation
reset c = (length c.turns, new_conversation c.session_id)

abbrev pub result_of : SubmittedResult → ToolResult
result_of r = record {
  tool_call_id = r.tool_call_id;
  output = r.output;
  status = r.status;
  error = r.error;
  reason = r.reason;
}

abbrev pub user_message : TurnSubmit → Message
user_message submit = record {
  role = "user";
  content = submit.content;
  tool_calls = [];
  tool_results = map result_of submit.tool_results;
  attachments = submit.attachments;
  metadata = ("turn_id", submit.turn_id) ∷ [];
}

abbrev pub assistant_message : AssistantResponse → Message
assistant_message resp = record {
  role = "assistant";
  content = resp.content;
  tool_calls = resp.tool_calls;
  tool_results = [];
  attachments = [];
  metadata = [];
}

abbrev pub no_metadata : TurnMetadata
no_metadata = record {
  model = "";
  provider = "";
  input_tokens = 0;
  output_tokens = 0;
  cost = 0;
  latency_ms = 0;
  files_touched = [];
  files_modified = [];
}

abbrev or_null : Option String → String
or_null none = "null"
or_null (some raw) = raw

abbrev pub is_next : ℤ → ℕ → Bool
is_next (pos n) current = n == current + 1
is_next (negsuc n) current = false

abbrev pub is_user : Message → Bool
is_user m = str_eq m.role "user"

module _ (codec : Codec) where
  -- The identifier is set by the caller; `now` is the clock.
  unfoldable pub message_to_turn : String → String → ℕ → Message → TurnMetadata → ℕ → Turn
  message_to_turn id session_id sequence msg meta now = record {
    id = id;
    session_id = session_id;
    sequence = sequence;
    role = msg.role;
    content = some (or_null (codec.marshal msg));
    model = meta.model;
    provider = meta.provider;
    input_tokens = meta.input_tokens;
    output_tokens = meta.output_tokens;
    cost = meta.cost;
    latency_ms = meta.latency_ms;
    tool_calls = if is_empty msg.tool_calls then none else codec.marshal_calls msg.tool_calls;
    files_touched = meta.files_touched;
    files_modified = meta.files_modified;
    compacted = false;
    compacted_summary = "";
    original_turns = [];
    created_at = now;
  }

  -- `none` is an error.
  unfoldable pub turn_to_message : Turn → Option Message
  turn_to_message t = elim t.content [
    | none ↦ none
    | some raw ↦ if str_eq raw "" then none else codec.unmarshal raw
  ]

  -- `fresh` is a new identifier. `none` is the error that the sequence does not follow.
  unfoldable pub append_user_turn :
      TurnSubmit → String → ℕ → Conversation → Option Turn × Conversation
  unfolding message_to_turn
  append_user_turn submit fresh now c =
      if is_next submit.sequence c.user_sequence
      then (
        some (
            message_to_turn (if str_eq submit.turn_id "" then fresh else submit.turn_id)
              c.session_id (c.storage_sequence + 1) (user_message submit) no_metadata now),
        record c {
          turns = c.turns ++ user_message submit ∷ [];
          user_sequence = c.user_sequence + 1;
          storage_sequence = c.storage_sequence + 1;
        },
      )
      else (none, c)

  abbrev pub response_metadata : AssistantResponse → TurnMetadata
  response_metadata resp = record {
    model = resp.model;
    provider = resp.provider;
    input_tokens = resp.input_tokens;
    output_tokens = resp.output_tokens;
    cost = resp.cost;
    latency_ms = resp.latency_ms;
    files_touched = [];
    files_modified = [];
  }

  unfoldable pub append_assistant_turn :
      AssistantResponse → String → ℕ → Conversation → Turn × Conversation
  unfolding message_to_turn
  append_assistant_turn resp fresh now c = (
    message_to_turn fresh c.session_id (c.storage_sequence + 1) (assistant_message resp)
        (response_metadata resp) now,
    record c {
      turns = c.turns ++ assistant_message resp ∷ [];
      storage_sequence = c.storage_sequence + 1;
    },
  )

  abbrev pub restored_message : Turn → Message → Conversation → Conversation
  restored_message t msg c = record c {
    turns = c.turns ++ msg ∷ [];
    user_sequence = if is_user msg then c.user_sequence + 1 else c.user_sequence;
    storage_sequence = if ltb c.storage_sequence t.sequence then t.sequence else c.storage_sequence;
  }

  -- In front, the turn that could not be decoded, where the loop stops.
  unfoldable pub restore_loop : List Turn → Conversation → Option String × Conversation
  unfolding turn_to_message
  restore_loop [] c = (none, c)
  restore_loop (t ∷ ts) c = elim (turn_to_message t) [
    | none ↦ (some t.id, c)
    | some msg ↦ restore_loop ts (restored_message t msg c)
  ]

  unfoldable pub restore_from_turns : List Turn → Conversation → Option String × Conversation
  unfolding restore_loop
  restore_from_turns turns c = restore_loop turns (new_conversation c.session_id)

-- The calls of the last assistant turn, and what came after it.
abbrev LastCalls : Type 0
LastCalls = Option (List ToolCall × List Message)

abbrev pub is_assistant : Message → Bool
is_assistant m = str_eq m.role "assistant"

-- The last assistant turn of a list of messages.
unfoldable pub last_assistant : List Message → LastCalls
last_assistant [] = none
last_assistant (m ∷ ms) = elim (last_assistant ms) [
  | some found ↦ some found
  | none ↦ if is_assistant m then some (m.tool_calls, ms) else none
]

abbrev pub resolved : List Message → List String
resolved ms = flat_map (λ m. map (λ r. r.tool_call_id) m.tool_results) ms

unfoldable pub pending_tool_calls : Conversation → List ToolCall
unfolding last_assistant
pending_tool_calls c = elim (last_assistant c.turns) [
  | none ↦ []
  | some (calls, later) ↦ select (λ tc. not (text_mem tc.id (resolved later))) calls
]

abbrev pub find_call : String → List ToolCall → Option ToolCall
find_call id [] = none
find_call id (tc ∷ tcs) = if str_eq tc.id id then some tc else find_call id tcs

unfoldable pub match_tool_result : String → Conversation → Option ToolCall
unfolding pending_tool_calls
match_tool_result id c = find_call id (pending_tool_calls c)
