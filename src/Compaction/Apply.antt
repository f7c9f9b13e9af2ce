-- ===== src/Compaction/Apply.antt =====
-- internal/runtime/compact.go: a compaction that is applied to the turns of a session.
use modeltap.Prelude.{
  ℕ, ◌+◌, String, Bool, true, not, ◌&&◌, List, [], ◌∷◌, ◌++◌, Option, none, some, map, length, leb,
  ltb, is_empty, if◌then◌else◌,
}
use modeltap.Prelude.Text.{str_eq, lookup, join, decimal, ◌<>◌}
use modeltap.Conversation.Types.{Message, Turn, Codec}
use modeltap.Conversation.Table.{create_turn, list_turns, delete_turn}
use modeltap.Compaction.Plan.{
  recent_turns_keep_floor, sum_turn_tokens, older_turns, tool_outputs, nine_tenths,
  context_window_or, Ratio, CompactCategory, build_compact_plan, compact_action_drop,
  compact_action_summarize, compact_category_older, compact_category_tool_output,
}

-- The action of a category: the user's, else the suggested one; empty where the plan has no such category.
abbrev suggested : String → List CompactCategory → String
suggested name [] = ""
suggested name (c ∷ cs) = if str_eq c.name name then c.suggested_action else suggested name cs

abbrev pub merged : List (String × String) → List CompactCategory → String → String
merged actions categories name = elim (lookup name actions) [
  | none ↦ suggested name categories
  | some action ↦ action
]

-- `DeleteTurn` for each.
unfoldable pub delete_turns : List Turn → List Turn → List Turn
unfolding delete_turn
delete_turns [] rows = rows
delete_turns (t ∷ ts) rows = delete_turns ts (delete_turn t.session_id t.id rows)

-- The message of a summary, and its row. `now` is the clock.
abbrev pub summary_message : String → Message
summary_message summary = record {
  role = "assistant";
  content = summary;
  tool_calls = [];
  tool_results = [];
  attachments = [];
  metadata = [];
}

abbrev first_sequence : List Turn → ℕ
first_sequence [] = 0
first_sequence (t ∷ ts) = t.sequence

-- What a pass does to the rows, the tokens that it frees and its line of the summary; `none` for the
-- rows is a storage error.
pub record Pass : Type 0 where
  pub rows : Option (List Turn)
  pub freed : ℕ
  pub lines : List String

abbrev pub no_pass : List Turn → Pass
no_pass rows = record { rows = some rows; freed = 0; lines = [] }

pub record CompactApplyResponse : Type 0 where
  pub applied : Bool
  pub tokens_freed : ℕ
  -- `none` where nothing was computed.
  pub context_pct_after : Option Ratio
  pub summary : String

abbrev pub or_no_op : String → String
or_no_op summary = if str_eq summary "" then "no-op (all categories kept)" else summary

-- The server event manual_compact carries the freed tokens and the summary lines.
pub data Applied : Type 0 where
  nothing_to_compact : Applied
  storage_error : Applied
  compacted : (rows : List Turn) → CompactApplyResponse → (event_detail : String) → Applied

-- `summarize` is summarizeTurns and `preview` summaryPreview: texts made of the turns' contents.
module _ (codec : Codec) (summarize preview : List Turn → String) where
  abbrev pub summary_turn : String → List Turn → ℕ → Turn
  summary_turn session_id originals now = record {
    id = "compact-" <> (session_id <> ("-" <> decimal (first_sequence originals)));
    session_id = session_id;
    sequence = first_sequence originals;
    role = "assistant";
    content = codec.marshal (summary_message (summarize originals));
    model = "";
    provider = "";
    input_tokens = 0;
    output_tokens = 0;
    cost = 0;
    latency_ms = 0;
    tool_calls = none;
    files_touched = [];
    files_modified = [];
    compacted = true;
    compacted_summary = summarize originals;
    original_turns = map (λ t. t.sequence) originals;
    created_at = now;
  }

  unfoldable pub older_pass : String → String → List Turn → ℕ → List Turn → Pass
  unfolding delete_turns create_turn
  older_pass act session_id older now rows =
      if is_empty older
      then no_pass rows
      else if str_eq act compact_action_summarize
      then record {
        rows = create_turn (summary_turn session_id older now) (delete_turns older rows);
        freed = nine_tenths (sum_turn_tokens older);
        lines = ("summarized " <> (decimal (length older) <> " older turns")) ∷ [];
      }
      else if str_eq act compact_action_drop
      then record {
        rows = some (delete_turns older rows);
        freed = sum_turn_tokens older;
        lines = ("dropped " <> (decimal (length older) <> " older turns")) ∷ [];
      }
      else no_pass rows

  unfoldable pub tool_pass : String → List Turn → List Turn → Pass
  unfolding delete_turns
  tool_pass act outputs rows =
      if str_eq act compact_action_drop && not (is_empty outputs)
      then record {
        rows = some (delete_turns outputs rows);
        freed = sum_turn_tokens outputs;
        lines = ("dropped " <> (decimal (length outputs) <> " tool outputs")) ∷ [];
      }
      else no_pass rows

  abbrev pub response_of : String → ℕ → List Turn → ℕ → List String → Applied
  response_of session_id window rows freed lines =
      compacted rows
        (record {
          applied = ltb 0 freed;
          tokens_freed = freed;
          context_pct_after = some (record {
            over = sum_turn_tokens (list_turns session_id rows);
            under = context_window_or window;
          });
          summary = or_no_op (join "; " lines);
        })
        (join "; " lines)

  abbrev pub tool_step : String → ℕ → String → List Turn → Pass → Applied
  tool_step session_id window act outputs first = elim first.rows [
    | none ↦ storage_error
    | some rows ↦
        let second = tool_pass act outputs rows in
        elim second.rows [
          | none ↦ storage_error
          | some rows' ↦
              response_of session_id window rows' (first.freed + second.freed)
                (first.lines ++ second.lines)
        ]
  ]

  unfoldable pub apply_compact_plan : String → List (String × String) → ℕ → ℕ → List Turn → Applied
  unfolding older_pass tool_pass build_compact_plan list_turns
  apply_compact_plan session_id actions window now rows =
      let turns = list_turns session_id rows in
      let plan = build_compact_plan preview turns window in
      let act = merged actions plan.categories in
      if leb (length turns) recent_turns_keep_floor
      then nothing_to_compact
      else tool_step session_id window (act compact_category_tool_output) (tool_outputs turns)
          (older_pass (act compact_category_older) session_id (older_turns turns) now rows)
