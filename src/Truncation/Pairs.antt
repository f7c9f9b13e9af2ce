-- ===== src/Truncation/Pairs.antt =====
-- After the reconciliation tool calls and tool results pair up.
use modeltap.Prelude.{
  ◌≡◌, refl, ◌∙◌, inl, inr, String, true, ◌&&◌, ◌||◌, List, [], ◌∷◌, ◌++◌, is_empty, select, map,
  arith, Bool-cases,
}
use modeltap.Prelude.Text.{str_eq, str_eq_iff, text_mem}
use modeltap.Truncation.Types.{ToolCall, ToolResult, Message}
use modeltap.Truncation.Truncate.{
  calls_of, results_of, uses_of_message, tool_use_ids, tool_result_ids, drop_orphan_results,
  drop_orphan_calls, has_payload, reconcile,
}

mem-append :
    (k : String) (xs ys : List String) → text_mem k (xs ++ ys) ≡ (text_mem k xs || text_mem k ys)
mem-append k [] ys = refl
mem-append k (x ∷ xs) ys = ground (arith, mem-append k xs ys)

mem-calls :
    (k : String) (results : List String) (cs : List ToolCall)
    → text_mem k (calls_of (select (λ c. text_mem c.id results) cs))
      ≡ (text_mem k (calls_of cs) && text_mem k results)
mem-calls k results [] = refl
mem-calls k results (c ∷ cs) = elim (Bool-cases (str_eq c.id k)) [
  | inl same ↦ ground (arith, mem-calls k results cs, str_eq_iff c.id k same)
  | inr other ↦ ground (arith, mem-calls k results cs)
]

mem-results :
    (k : String) (uses : List String) (rs : List ToolResult)
    → text_mem k (results_of (select (λ r. text_mem r.tool_call_id uses) rs))
      ≡ (text_mem k (results_of rs) && text_mem k uses)
mem-results k uses [] = refl
mem-results k uses (r ∷ rs) = elim (Bool-cases (str_eq r.tool_call_id k)) [
  | inl same ↦ ground (arith, mem-results k uses rs, str_eq_iff r.tool_call_id k same)
  | inr other ↦ ground (arith, mem-results k uses rs)
]

no_calls : (cs : List ToolCall) → is_empty cs ≡ true → cs ≡ []
no_calls [] h = refl
no_calls (c ∷ cs) h = ground arith

no_results : (rs : List ToolResult) → is_empty rs ≡ true → rs ≡ []
no_results [] h = refl
no_results (r ∷ rs) h = ground arith

-- A message without calls and results has no identifiers, so it may go.
select_uses :
    (k : String) (m : Message) (ms : List Message)
    → text_mem k (tool_use_ids (select has_payload (m ∷ ms)))
      ≡ (text_mem k (uses_of_message m) || text_mem k (tool_use_ids (select has_payload ms)))
select_uses k m ms = elim (Bool-cases (is_empty m.tool_calls)) [
  | inl none_left ↦ ground (
    arith,
    no_calls m.tool_calls none_left,
    mem-append k (uses_of_message m) (tool_use_ids (select has_payload ms)),
  )
  | inr some_left ↦
      ground (arith, mem-append k (uses_of_message m) (tool_use_ids (select has_payload ms)))
]

select_results :
    (k : String) (m : Message) (ms : List Message)
    → text_mem k (tool_result_ids (select has_payload (m ∷ ms))) ≡ (
        text_mem k (results_of m.tool_results)
        || text_mem k (tool_result_ids (select has_payload ms)))
select_results k m ms = elim (Bool-cases (is_empty m.tool_results)) [
  | inl none_left ↦ ground (
    arith,
    no_results m.tool_results none_left,
    mem-append k (results_of m.tool_results) (tool_result_ids (select has_payload ms)),
  )
  | inr some_left ↦
      ground
        (arith, mem-append k (results_of m.tool_results) (tool_result_ids (select has_payload ms)))
]

abbrev pub reconciled_one : List String → List String → Message → Message
reconciled_one uses results m = drop_orphan_calls results (drop_orphan_results uses m)

one_use :
    (k : String) (uses results : List String) (m : Message)
    → text_mem k (uses_of_message (reconciled_one uses results m))
      ≡ (text_mem k (uses_of_message m) && text_mem k results)
unfolding drop_orphan_results drop_orphan_calls
one_use k uses results m = ground (arith, mem-calls k results m.tool_calls)

-- The reconciliation with the identifiers of the whole list, on part of it.
abbrev reconciled : List String → List String → List Message → List Message
reconciled uses results ms =
    select has_payload (map (drop_orphan_calls results) (map (drop_orphan_results uses) ms))

uses_reconciled :
    (k : String) (uses results : List String) (ms : List Message)
    → text_mem k (tool_use_ids (reconciled uses results ms))
      ≡ (text_mem k (tool_use_ids ms) && text_mem k results)
uses_reconciled k uses results [] = refl
uses_reconciled k uses results (m ∷ ms) =
    select_uses k (reconciled_one uses results m)
      (map (drop_orphan_calls results) (map (drop_orphan_results uses) ms))
    ∙ ground (
      arith,
      one_use k uses results m,
      uses_reconciled k uses results ms,
      mem-append k (uses_of_message m) (tool_use_ids ms),
    )

results_reconciled :
    (k : String) (uses results : List String) (ms : List Message)
    → text_mem k (tool_result_ids (reconciled uses results ms))
      ≡ (text_mem k (tool_result_ids ms) && text_mem k uses)
unfolding drop_orphan_results drop_orphan_calls
results_reconciled k uses results [] = refl
results_reconciled k uses results (m ∷ ms) =
    select_results k (reconciled_one uses results m)
      (map (drop_orphan_calls results) (map (drop_orphan_results uses) ms))
    ∙ ground (
      arith,
      mem-results k uses m.tool_results,
      results_reconciled k uses results ms,
      mem-append k (results_of m.tool_results) (tool_result_ids ms),
    )

-- After the reconciliation an identifier is called in an assistant's message exactly when it is
-- answered, and it was called and answered before.
pub reconcile-pairs :
    (k : String) (kept : List Message)
    → (text_mem k (tool_use_ids (reconcile kept)) ≡ text_mem k (tool_result_ids (reconcile kept)))
      × (text_mem k (tool_use_ids (reconcile kept))
          ≡ (text_mem k (tool_use_ids kept) && text_mem k (tool_result_ids kept)))
unfolding reconcile
reconcile-pairs k kept =
    let u = uses_reconciled k (tool_use_ids kept) (tool_result_ids kept) kept in
    let r = results_reconciled k (tool_use_ids kept) (tool_result_ids kept) kept in
    (ground (arith, u, r), u)
