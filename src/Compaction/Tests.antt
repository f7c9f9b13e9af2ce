-- ===== src/Compaction/Tests.antt =====
-- A compaction of five turns.
use modeltap.Prelude.{ℕ, ◌≡◌, ◌≤◌, ◌+◌, ◌-◌, refl, String, false, List, [], ◌∷◌, none, some, map}
use modeltap.Prelude.Text.{decimal}
use modeltap.Conversation.Types.{Turn}
use modeltap.Conversation.Samples.{a_codec}
use modeltap.Compaction.Plan.{build_compact_plan, sum_turn_tokens, recent_turns}
use modeltap.Compaction.Apply.{
  Applied, nothing_to_compact, storage_error, compacted, CompactApplyResponse, apply_compact_plan,
}
use modeltap.Compaction.Tokens.{token_total, build_compact_plan-tokens}
use modeltap.Compaction.Keeps.{listed, Keeps, apply_compact_plan-Keeps}

abbrev turn_of : String → String → ℕ → String → ℕ → Turn
turn_of id session_id sequence role tokens = record {
  id = id;
  session_id = session_id;
  sequence = sequence;
  role = role;
  content = some "{}";
  model = "";
  provider = "";
  input_tokens = tokens;
  output_tokens = 0;
  cost = 0;
  latency_ms = 0;
  tool_calls = none;
  files_touched = [];
  files_modified = [];
  compacted = false;
  compacted_summary = "";
  original_turns = [];
  created_at = 0;
}

abbrev five_turns : List Turn
five_turns =
    turn_of "a" "s" 1 "user" 100
    ∷ turn_of "b" "s" 2 "tool" 50
    ∷ turn_of "c" "s" 3 "assistant" 30
    ∷ turn_of "d" "s" 4 "user" 20
    ∷ turn_of "e" "s" 5 "assistant" 10
    ∷ []

abbrev some_rows : List Turn
some_rows = turn_of "z" "other" 1 "user" 7 ∷ five_turns

abbrev no_preview : List Turn → String
no_preview ts = ""

abbrev a_summary : List Turn → String
a_summary ts = "earlier"

build_compact_plan-tokens_example :
    token_total (build_compact_plan no_preview five_turns 0).categories ≡ sum_turn_tokens five_turns
    × (build_compact_plan no_preview five_turns 0).estimated_tokens_freed
        + sum_turn_tokens (recent_turns five_turns)
      ≤ sum_turn_tokens five_turns
    × (build_compact_plan no_preview five_turns 0).context_pct_after.over
      ≡ sum_turn_tokens five_turns
        - (build_compact_plan no_preview five_turns 0).estimated_tokens_freed
build_compact_plan-tokens_example = build_compact_plan-tokens no_preview five_turns 0 refl

abbrev applied : Applied
applied = apply_compact_plan a_codec a_summary no_preview "s" [] 1000 9 some_rows

abbrev rows_of : Applied → List Turn
rows_of nothing_to_compact = []
rows_of storage_error = []
rows_of (compacted rows response detail) = rows

-- The older user turn became a summary, and the tool output is gone.
left_rows : map (λ t. t.id) (rows_of applied) ≡ "z" ∷ "c" ∷ "d" ∷ "e" ∷ "compact-s-1" ∷ []
unfolding apply_compact_plan decimal
left_rows = refl

-- The response and the event's detail.
abbrev answer : Applied → CompactApplyResponse
answer (compacted rows response detail) = response
answer _ = record { applied = false; tokens_freed = 0; context_pct_after = none; summary = "" }

abbrev detail_of : Applied → String
detail_of (compacted rows response detail) = detail
detail_of _ = ""

apply_compact_plan-Keeps_example : Keeps "s" (listed "s" some_rows refl) some_rows (rows_of applied)
unfolding apply_compact_plan decimal
apply_compact_plan-Keeps_example =
    apply_compact_plan-Keeps "s" some_rows refl a_codec a_summary no_preview [] 1000 9
      (rows_of applied) (answer applied) (detail_of applied) refl
