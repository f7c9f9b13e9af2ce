-- ===== src/Truncation/Truncate.antt =====
-- internal/provider/truncate.go: the age-based cutoff and the reconciliation of tool pairs.
use modeltap.Prelude.{
  ℕ, ◌+◌, ◌-◌, String, Bool, true, false, not, ◌||◌, List, [], ◌∷◌, is_empty, ltb, leb, select, any,
  map, flat_map, if◌then◌else◌,
}
use modeltap.Prelude.Int.{ℤ, pos, negsuc}
use modeltap.Prelude.Text.{str_eq, text_mem}
use modeltap.Truncation.Types.{
  ToolCall, ToolResult, Message, Encoding, estimate_tokens, estimate_message_tokens,
}

pub data Truncated : Type 0 where
  fits : List Message → Truncated
  empty_messages window_too_small truncation_empty : Truncated

-- The state of the walk from the newest message to the oldest.
pub record Walk : Type 0 where
  pub kept : List Message
  pub cumulative : ℕ
  pub stopped : Bool

-- The identifiers that the messages call, in the assistant's messages, and those they answer.
abbrev pub calls_of : List ToolCall → List String
calls_of [] = []
calls_of (c ∷ cs) = c.id ∷ calls_of cs

abbrev pub results_of : List ToolResult → List String
results_of [] = []
results_of (r ∷ rs) = r.tool_call_id ∷ results_of rs

abbrev pub uses_of_message : Message → List String
uses_of_message m = if str_eq m.role "assistant" then calls_of m.tool_calls else []

abbrev pub tool_use_ids : List Message → List String
tool_use_ids ms = flat_map uses_of_message ms

abbrev pub tool_result_ids : List Message → List String
tool_result_ids ms = flat_map (λ m. results_of m.tool_results) ms

unfoldable pub drop_orphan_results : List String → Message → Message
drop_orphan_results uses m = record m {
  tool_results = select (λ r. text_mem r.tool_call_id uses) m.tool_results;
}

unfoldable pub drop_orphan_calls : List String → Message → Message
drop_orphan_calls results m = record m {
  tool_calls = select (λ c. text_mem c.id results) m.tool_calls;
}

abbrev pub has_payload : Message → Bool
has_payload m =
    not (str_eq m.content "")
    || (not (is_empty m.tool_calls)
        || (not (is_empty m.tool_results) || not (is_empty m.attachments)))

unfoldable pub reconcile : List Message → List Message
unfolding drop_orphan_results drop_orphan_calls
reconcile kept =
    let uses = tool_use_ids kept in
    let results = tool_result_ids kept in
    select has_payload (map (drop_orphan_calls results) (map (drop_orphan_results uses) kept))

abbrev pub has_user : List Message → Bool
has_user ms = any (λ m. str_eq m.role "user" || str_eq m.role "tool") ms

abbrev pub checked : List Message → Truncated
checked result =
    if is_empty result
    then truncation_empty
    else if has_user result
    then fits result
    else truncation_empty

module _ (enc : Encoding) where
  -- One turn of the loop; after its `break` nothing more happens.
  unfoldable pub walk_step : ℕ → Message → Walk → Walk
  walk_step remaining m w =
      let total = w.cumulative + estimate_message_tokens enc m in
      if w.stopped
      then w
      else if ltb remaining total
      then record w { stopped = true }
      else record { kept = m ∷ w.kept; cumulative = total; stopped = false }

  unfoldable pub walk : ℕ → List Message → Walk
  unfolding walk_step
  walk remaining [] = record { kept = []; cumulative = 0; stopped = false }
  walk remaining (m ∷ ms) = walk_step remaining m (walk remaining ms)

  abbrev pub in_window : ℕ → List Message → Truncated
  in_window remaining msgs =
      let kept = (walk remaining msgs).kept in
      if is_empty kept then truncation_empty else checked (reconcile kept)

  unfoldable pub truncate : List Message → String → ℤ → Truncated
  unfolding walk reconcile
  truncate msgs system_prompt (negsuc n) = if is_empty msgs then empty_messages else fits msgs
  truncate msgs system_prompt (pos window_size) =
      let system_budget = estimate_tokens system_prompt in
      if is_empty msgs
      then empty_messages
      else if leb window_size 0
      then fits msgs
      else if leb window_size system_budget
      then window_too_small
      else in_window (window_size - system_budget) msgs
