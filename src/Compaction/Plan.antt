-- ===== src/Compaction/Plan.antt =====
-- internal/runtime/compact.go: the plan of a compaction.
use modeltap.Prelude.{
  ℕ, ◌+◌, ◌-◌, ◌*◌, ◌/◌, String, Bool, not, List, [], ◌∷◌, ◌++◌, Option, none, some, length, take,
  drop, select, leb, ltb, is_empty, if◌then◌else◌,
}
use modeltap.Prelude.Text.{str_eq, byte_length}
use modeltap.Conversation.Types.{Turn}

abbrev pub recent_turns_keep_floor : ℕ
recent_turns_keep_floor = 3

abbrev pub compact_category_older : String
compact_category_older = "older_turns"

abbrev pub compact_category_tool_output : String
compact_category_tool_output = "tool_results"

abbrev pub compact_category_recent : String
compact_category_recent = "recent"

abbrev pub compact_action_keep : String
compact_action_keep = "keep"

abbrev pub compact_action_summarize : String
compact_action_summarize = "summarize"

abbrev pub compact_action_drop : String
compact_action_drop = "drop"

abbrev content_bytes : Option String → ℕ
content_bytes none = 0
content_bytes (some raw) = byte_length raw

-- A turn without token counts counts a quarter of its bytes.
unfoldable pub turn_tokens : Turn → ℕ
unfolding byte_length
turn_tokens t =
    if ltb 0 (t.input_tokens + t.output_tokens)
    then t.input_tokens + t.output_tokens
    else content_bytes t.content / 4

unfoldable pub sum_turn_tokens : List Turn → ℕ
unfolding turn_tokens
sum_turn_tokens [] = 0
sum_turn_tokens (t ∷ ts) = turn_tokens t + sum_turn_tokens ts

-- `int(0.9 * float64(n))`, which is exact below 2 ^ 49.
abbrev pub nine_tenths : ℕ → ℕ
nine_tenths n = n * 9 / 10

abbrev pub is_tool : Turn → Bool
is_tool t = str_eq t.role "tool"

-- The turns before the last three.
abbrev pub before_recent : List Turn → List Turn
before_recent turns = take (length turns - recent_turns_keep_floor) turns

abbrev pub recent_turns : List Turn → List Turn
recent_turns turns = drop (length turns - recent_turns_keep_floor) turns

abbrev pub older_turns : List Turn → List Turn
older_turns turns = select (λ t. not (is_tool t)) (before_recent turns)

abbrev pub tool_outputs : List Turn → List Turn
tool_outputs turns = select is_tool (before_recent turns)

-- The value score is in hundredths.
pub record CompactCategory : Type 0 where
  pub name : String
  pub token_count : ℕ
  pub value_score : ℕ
  pub suggested_action : String
  pub summary_preview : String

-- A quotient of two numbers that the code divides as floats.
pub record Ratio : Type 0 where
  pub over : ℕ
  pub under : ℕ

pub record CompactPlan : Type 0 where
  pub categories : List CompactCategory
  pub estimated_tokens_freed : ℕ
  pub context_pct_before : Ratio
  pub context_pct_after : Ratio

unfoldable pub context_window_or : ℕ → ℕ
context_window_or window = if ltb 0 window then window else 200000

unfoldable pub category_of : List Turn → String → ℕ → String → String → List CompactCategory
unfolding sum_turn_tokens
category_of turns name score action preview =
    if is_empty turns
    then []
    else record {
      name = name;
      token_count = sum_turn_tokens turns;
      value_score = score;
      suggested_action = action;
      summary_preview = preview;
    }
      ∷ []

unfoldable pub category_freed : CompactCategory → ℕ
category_freed c =
    if str_eq c.suggested_action compact_action_drop
    then c.token_count
    else if str_eq c.suggested_action compact_action_summarize
    then nine_tenths c.token_count
    else 0

unfoldable pub estimated_freed : List CompactCategory → ℕ
unfolding category_freed
estimated_freed [] = 0
estimated_freed (c ∷ cs) = category_freed c + estimated_freed cs

abbrev empty_plan : CompactPlan
empty_plan = record {
  categories = [];
  estimated_tokens_freed = 0;
  context_pct_before = record { over = 0; under = 1 };
  context_pct_after = record { over = 0; under = 1 };
}

-- `preview` is the teaser of the older turns.
module _ (preview : List Turn → String) where
  unfoldable pub categories_of : List Turn → List CompactCategory
  unfolding category_of
  categories_of turns =
      category_of (older_turns turns) compact_category_older 35 compact_action_summarize
        (preview (older_turns turns))
      ++ (category_of (tool_outputs turns) compact_category_tool_output 15 compact_action_drop ""
          ++ category_of (recent_turns turns) compact_category_recent 95 compact_action_keep "")

  unfoldable pub build_compact_plan : List Turn → ℕ → CompactPlan
  unfolding categories_of estimated_freed context_window_or
  build_compact_plan turns window =
      if leb (length turns) recent_turns_keep_floor then empty_plan else record {
        categories = categories_of turns;
        estimated_tokens_freed = estimated_freed (categories_of turns);
        context_pct_before = record {
          over = sum_turn_tokens turns;
          under = context_window_or window;
        };
        context_pct_after = record {
          over = sum_turn_tokens turns - estimated_freed (categories_of turns);
          under = context_window_or window;
        };
      }
