-- ===== src/Truncation/Tests.antt =====
-- A question, a tool call with its result, and a second question, cut to two windows.
use modeltap.Prelude.{◌+◌, ◌-◌, ◌≤◌, ◌≡◌, refl, String, true, List, [], ◌∷◌, some, arith}
use modeltap.Prelude.Int.{pos}
use modeltap.Prelude.Text.{text_mem, byte_length}
use modeltap.Truncation.Types.{
  ToolCall, ToolResult, Message, Encoding, estimate_tokens, estimate_message_tokens,
}
use modeltap.Truncation.Truncate.{
  fits, has_user, tool_use_ids, tool_result_ids, reconcile, walk, walk_step, truncate,
  drop_orphan_results, drop_orphan_calls,
}
use modeltap.Truncation.Window.{tokens_sum, IsWindow, truncate-IsWindow}

-- Each list is printed as eight characters.
abbrev enc : Encoding
enc = record { marshal_calls = λ cs. some "[......]"; marshal_results = λ rs. some "[......]" }

abbrev message : String → String → List ToolCall → List ToolResult → Message
message role content calls results = record {
  role = role;
  content = content;
  tool_calls = calls;
  tool_results = results;
  attachments = [];
}

abbrev a_result : ToolResult
a_result = record {
  tool_call_id = "c1";
  output = "ok";
  status = "success";
  error = "";
  reason = "";
}

abbrev chat : List Message
chat =
    message "user" "read it!" [] []
    ∷ message "assistant" "" (record { id = "c1"; name = "read"; input = "{}" } ∷ []) []
    ∷ message "tool" "" [] (a_result ∷ [])
    ∷ message "user" "and now?" [] []
    ∷ []

-- In a window of five tokens the call is cut off, and its result goes with it.
cut_chat : truncate enc chat "sys!" (pos 5) ≡ fits (message "user" "and now?" [] [] ∷ [])
unfolding truncate walk walk_step estimate_tokens estimate_message_tokens byte_length reconcile
    drop_orphan_results drop_orphan_calls
cut_chat = refl

truncate-IsWindow_example :
    (kept : List Message) × IsWindow enc (5 - estimate_tokens "sys!") chat kept
    × (estimate_tokens "sys!" + tokens_sum enc kept ≤ 5)
    × (message "user" "and now?" [] [] ∷ [] ≡ reconcile kept)
    × (has_user (message "user" "and now?" [] [] ∷ []) ≡ true)
    × ((id : String)
        → text_mem id (tool_use_ids (message "user" "and now?" [] [] ∷ []))
          ≡ text_mem id (tool_result_ids (message "user" "and now?" [] [] ∷ [])))
truncate-IsWindow_example =
    truncate-IsWindow enc chat "sys!" 5 (message "user" "and now?" [] [] ∷ []) cut_chat
      (omega arith)
