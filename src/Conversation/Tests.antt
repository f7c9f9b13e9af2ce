-- ===== src/Conversation/Tests.antt =====
-- Calls on a session, and its resume.
use modeltap.Prelude.{
  ℕ, ◌≡◌, refl, not, List, [], ◌∷◌, Option, none, some, map, length, select, arith,
}
use modeltap.Prelude.Text.{str_eq}
use modeltap.Prelude.Int.{pos}
use modeltap.Truncation.Types.{ToolCall}
use modeltap.Conversation.Types.{SubmittedResult, TurnSubmit, AssistantResponse}
use modeltap.Conversation.State.{
  new_conversation, restore_from_turns, pending_tool_calls, message_to_turn, user_message,
  no_metadata,
}
use modeltap.Conversation.Table.{create_turn, list_turns}
use modeltap.Conversation.Live.{
  Live, invalid_params, submit_turn, handle_tool_result, Call, submits, completes, answers, steps,
}
use modeltap.Conversation.Records.{recovered}
use modeltap.Conversation.Restore.{restore_from_turns-steps}
use modeltap.Conversation.Pending.{handle_tool_result-once}
use modeltap.Conversation.Samples.{a_codec, a_codec-IsCodec}

abbrev hello : TurnSubmit
hello = record {
  turn_id = "t1";
  sequence = pos 1;
  content = "hello";
  attachments = [];
  tool_results = [];
}

abbrev a_call : ToolCall
a_call = record { id = "k1"; name = "Read"; input = "{}" }

abbrev reply : AssistantResponse
reply = record {
  content = "let me look";
  tool_calls = a_call ∷ [];
  model = "m";
  provider = "p";
  input_tokens = 3;
  output_tokens = 4;
  cost = 0;
  latency_ms = 5;
}

abbrev a_result : SubmittedResult
a_result = record {
  tool_call_id = "k1";
  status = "success";
  output = "text";
  output_type = "text";
  error = "";
  reason = "";
}

abbrev some_calls : List Call
some_calls =
    submits hello "f1" 10
    ∷ completes reply "f2" 11
    ∷ submits hello "f3" 12
    ∷ answers a_result "t2" "f4" 13
    ∷ []

abbrev new_session : Live
new_session = record { conversation = new_conversation "s1"; rows = [] }

abbrev lived : Option Live
lived = steps a_codec some_calls new_session

abbrev after_calls : Live
after_calls = elim lived [ none ↦ new_session | some l ↦ l ]

abbrev size : ℕ
size = length after_calls.conversation.turns

-- A second submission with the number of the first is refused.
three_turns : size ≡ 3
unfolding steps create_turn
three_turns = refl

restore_from_turns-steps_example :
    restore_from_turns a_codec
      (list_turns after_calls.conversation.session_id after_calls.rows)
      (new_conversation after_calls.conversation.session_id)
    ≡ (
      none,
      record after_calls.conversation {
        turns = map (recovered a_codec) after_calls.conversation.turns;
      },
    )
unfolding steps create_turn
restore_from_turns-steps_example =
    restore_from_turns-steps a_codec a_codec-IsCodec some_calls "s1" [] after_calls refl refl
      (omega arith)

abbrev asked : Live
asked = elim (steps a_codec (submits hello "f1" 10 ∷ completes reply "f2" 11 ∷ []) new_session) [
  | none ↦ new_session
  | some l ↦ l
]

abbrev told : Live
told = (handle_tool_result a_codec a_result "t2" "f4" 13 asked).1

handle_tool_result-once_example :
    pending_tool_calls told.conversation
      ≡ select (λ tc. not (str_eq "k1" tc.id)) (pending_tool_calls asked.conversation)
    × handle_tool_result a_codec a_result "t3" "f5" 14 told ≡ (invalid_params, told)
unfolding steps create_turn
handle_tool_result-once_example =
    handle_tool_result-once a_codec a_result "t2" "f4" 13 asked told a_result "t3" "f5" 14 refl refl

-- Another session's turn has taken the identifier.
abbrev taken : Live
taken = record {
  conversation = new_conversation "s2";
  rows = message_to_turn a_codec "t1" "s1" 1 (user_message hello) no_metadata 9 ∷ [];
}

abbrev ahead : Live
ahead = (submit_turn a_codec hello "f1" 10 taken).1
