-- ===== src/Conversation/Live.antt =====
-- The calls that change a conversation and its rows together: internal/runtime/turn.go and
-- internal/runtime/streaming.go, where they persist a turn.
use modeltap.Prelude.{
  ℕ, ◌+◌, String, Bool, true, false, List, [], ◌∷◌, Option, none, some, if◌then◌else◌,
}
use modeltap.Prelude.Text.{str_eq}
use modeltap.Prelude.Int.{pos}
use modeltap.Conversation.Types.{SubmittedResult, TurnSubmit, AssistantResponse, Turn, Codec}
use modeltap.Conversation.State.{
  Conversation, append_user_turn, append_assistant_turn, match_tool_result,
}
use modeltap.Conversation.Table.{create_turn}

pub record Live : Type 0 where
  pub conversation : Conversation
  pub rows : List Turn

pub data Reply : Type 0 where
  accepted : Reply
  -- Nothing was appended.
  invalid_params : Reply
  -- The message was appended, and its row was not written.
  internal_error : Reply

abbrev pub persisted : Turn → Conversation → List Turn → Reply × Live
persisted turn c rows = elim (create_turn turn rows) [
  | none ↦ (internal_error, record { conversation = c; rows = rows })
  | some rows' ↦ (accepted, record { conversation = c; rows = rows' })
]

-- What happens to an appended turn, or to a refused one.
abbrev pub finished : Option Turn × Conversation → List Turn → Reply × Live
finished (none, c) rows = (invalid_params, record { conversation = c; rows = rows })
finished (some turn, c) rows = persisted turn c rows

abbrev pub is_written : Reply → Bool
is_written internal_error = false
is_written _ = true

pub data Call : Type 0 where
  submits : TurnSubmit → (fresh : String) → (now : ℕ) → Call
  completes : AssistantResponse → (fresh : String) → (now : ℕ) → Call
  answers : SubmittedResult → (turn_id fresh : String) → (now : ℕ) → Call

module _ (codec : Codec) where
  -- The part of handleTurnSubmit from the append to the creation of the run, whose transaction
  -- inserts the turn.
  unfoldable pub submit_turn : TurnSubmit → String → ℕ → Live → Reply × Live
  unfolding append_user_turn
  submit_turn submit fresh now l =
      finished (append_user_turn codec submit fresh now l.conversation) l.rows

  -- The end of a relay.
  unfoldable pub complete_turn : AssistantResponse → String → ℕ → Live → Reply × Live
  unfolding append_assistant_turn
  complete_turn resp fresh now l =
      let (turn, c) = append_assistant_turn codec resp fresh now l.conversation in
      persisted turn c l.rows

  abbrev pub staged : SubmittedResult → String → Conversation → TurnSubmit
  staged req turn_id c = record {
    turn_id = turn_id;
    sequence = pos (c.user_sequence + 1);
    content = "";
    attachments = [];
    tool_results = req ∷ [];
  }

  -- handleToolResult on an active session. `turn_id` is `newID()`.
  unfoldable pub handle_tool_result : SubmittedResult → String → String → ℕ → Live → Reply × Live
  unfolding submit_turn match_tool_result
  handle_tool_result req turn_id fresh now l =
      let appended = submit_turn (staged req turn_id l.conversation) fresh now l in
      if str_eq req.tool_call_id ""
      then (invalid_params, l)
      else elim (match_tool_result req.tool_call_id l.conversation) [
        | none ↦ (invalid_params, l)
        | some tc ↦ appended
      ]

  unfoldable pub step : Call → Live → Reply × Live
  unfolding submit_turn complete_turn handle_tool_result
  step (submits submit fresh now) l = submit_turn submit fresh now l
  step (completes resp fresh now) l = complete_turn resp fresh now l
  step (answers req turn_id fresh now) l = handle_tool_result req turn_id fresh now l

  -- The calls in turn; `none` where a row could not be written.
  unfoldable pub steps : List Call → Live → Option Live
  unfolding step
  steps [] l = some l
  steps (call ∷ calls) l =
      let (reply, l') = step call l in
      let rest = steps calls l' in if is_written reply then rest else none
