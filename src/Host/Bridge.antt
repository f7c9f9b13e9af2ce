-- ===== src/Host/Bridge.antt =====
-- internal/harness/connection.go, HandleEvent: notifications of the server become messages.
use modeltap.Prelude.{
  ℕ, ◌*◌, String, Bool, false, List, [], ◌∷◌, Option, none, some, if◌then◌else◌, ltb,
}
use modeltap.Prelude.Text.{◌<>◌, str_eq, decimal, join}
use modeltap.Host.Messages.{
  Floats, ToolCall, Selection, single, multi, Notification, token_delta, turn_complete, tool_call,
  cost_update, model_selected, branch_started, branch_complete, branch_error, compact_suggest,
  compact_notice, compact_plan, knowledge_hit, server_error, status_update, Message, stream_token,
  stream_complete, model_update, cost, tool_call_received, branch_start, branch_end, branch_failure,
  status,
}

-- A message for the program, or a call that the dispatcher runs.
pub data Effect (F : Type 0) : Type 0 where
  send : Message F → Effect F
  dispatch : ToolCall → Effect F

-- The run of an event: its run ID, or the turn where it has none.
abbrev pub run_of : String → String → String
run_of turn_id run_id = if str_eq run_id "" then turn_id else run_id

abbrev notice : Option (String × ℕ) → String
notice none = "Context auto-compacted"
notice (some (summary, freed)) =
    if str_eq summary ""
    then if ltb 0 freed
      then "Auto-compacted: freed " <> (decimal freed <> " tokens")
      else "Context auto-compacted"
    else summary

-- Message and diagnostic code.
abbrev error_line : String → String → String
error_line message code =
    let text = if str_eq code "" then message else code <> (": " <> message) in
    if str_eq text "" then "Server error" else text

module _ {F : Type 0} where
  abbrev says : String → List (Effect F)
  says text = send (status "" text) ∷ []

  abbrev selected : Selection → String → List (Effect F)
  selected (single none) reason = []
  selected (single (some name)) reason = send (model_update name false reason) ∷ []
  selected (multi none) reason = []
  selected (multi (some names)) reason = send (model_update (join ", " names) false reason) ∷ []

  abbrev suggestion : Floats F → Option (String × F) → String
  suggestion fl none = "Context pressure — consider /compact"
  suggestion fl (some (message, pct)) =
      if str_eq message ""
      then if Floats.is_positive fl pct
        then "Context at " <> (Floats.percent fl pct <> "% — consider /compact")
        else "Context pressure — consider /compact"
      else message

  -- With a program to send to; `wired` tells whether a tool dispatcher is set.
  unfoldable pub bridged : Floats F → Bool → Notification F → List (Effect F)
  bridged fl wired (token_delta (some (turn, run, branch, text))) =
      send (stream_token (run_of turn run) branch text) ∷ []
  bridged fl wired (turn_complete (some (turn, run, input, output, total, model, latency_ms))) =
      send (stream_complete (run_of turn run) "" input output total (latency_ms * 1000000) model)
      ∷ []
  bridged fl wired (tool_call (some call)) =
      (if wired then dispatch call else send (tool_call_received call)) ∷ []
  bridged fl wired (cost_update (some total)) = send (cost total) ∷ []
  bridged fl wired (model_selected (some (choice, reason))) = selected choice reason
  bridged fl wired (branch_started (some (turn, branch, model, provider))) =
      send (branch_start turn branch model provider) ∷ []
  bridged fl wired (branch_complete (some (turn, branch, model, input, output))) =
      send (branch_end turn branch model input output) ∷ []
  bridged fl wired (branch_error (some (turn, branch, message))) =
      send (branch_failure turn branch message) ∷ []
  bridged fl wired (compact_suggest ev) = says (suggestion fl ev)
  bridged fl wired (compact_notice ev) = says (notice ev)
  bridged fl wired compact_plan = says "Compaction plan available — /compact to apply"
  bridged fl wired (knowledge_hit (some summary)) =
      if str_eq summary "" then [] else says ("Knowledge: " <> summary)
  bridged fl wired (server_error (some (message, code))) = says (error_line message code)
  bridged fl wired (status_update (some (turn, detail))) = send (status turn detail) ∷ []
  bridged fl wired _ = []

  unfoldable pub handle_event : Floats F → Bool → Bool → Notification F → List (Effect F)
  unfolding bridged
  handle_event fl has_sender wired n = if has_sender then bridged fl wired n else []
