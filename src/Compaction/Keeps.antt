-- ===== src/Compaction/Keeps.antt =====
-- What a compaction leaves alone.
use modeltap.Prelude.{
  ℕ, ◌≡◌, refl, ap, sym, ◌∙◌, inl, inr, ◌-◌, String, Bool, true, false, not, ◌&&◌, ◌||◌, List, [],
  ◌∷◌, ◌++◌, some, length, append_nil, select-snoc, select, All, All-select, is_empty, arith,
  Bool-cases, Option-cases, if◌then◌else◌,
}
use modeltap.Prelude.Text.{str_eq, text_mem, is_distinct}
use text.Mathlib.TextEquality.{eq_iff}
use modeltap.Conversation.Types.{Turn, Codec}
use modeltap.Conversation.Table.{
  create_turn, normalized_turn, list_turns, sort_by_sequence, delete_turn, is_of,
}
use modeltap.Compaction.Plan.{
  is_tool, before_recent, recent_turns, older_turns, tool_outputs, compact_action_drop,
  compact_action_summarize, build_compact_plan, compact_category_older,
  compact_category_tool_output,
}
use modeltap.Compaction.Apply.{
  delete_turns, summary_turn, Pass, older_pass, tool_pass, tool_step, compacted,
  CompactApplyResponse, apply_compact_plan, merged,
}
use modeltap.Compaction.Distinct.{
  ids, distinct-select, distinct-sort, distinct-take, disjoint-cut, All-sort, All-take,
  All-selected,
}

-- A row of another session, or one of the last three turns of this one.
abbrev pub is_spared : String → List Turn → Turn → Bool
is_spared session_id turns r = not (is_of session_id r) || text_mem r.id (ids (recent_turns turns))

module _ (session_id : String) (turns : List Turn) where
  -- A turn of the session that is not among the last three.
  abbrev IsOld : Turn → Type 0
  IsOld t = (is_of session_id t ≡ true) × (text_mem t.id (ids (recent_turns turns)) ≡ false)

  spared-delete_turn :
      (t : Turn) (rows : List Turn)
      → IsOld t
      → select (is_spared session_id turns) (delete_turn t.session_id t.id rows)
        ≡ select (is_spared session_id turns) rows
  unfolding delete_turn
  spared-delete_turn t [] old = refl
  spared-delete_turn t (r ∷ rs) old = grind (
    arith,
    old.0,
    old.1,
    spared-delete_turn t rs old,
    eq_iff r.id t.id,
    eq_iff r.session_id t.session_id,
    eq_iff t.session_id session_id,
  )

  spared-delete_turns :
      (ts rows : List Turn)
      → All IsOld ts
      → select (is_spared session_id turns) (delete_turns ts rows)
        ≡ select (is_spared session_id turns) rows
  unfolding delete_turns
  spared-delete_turns [] rows all = refl
  spared-delete_turns (t ∷ ts) rows all =
      spared-delete_turns ts (delete_turn t.session_id t.id rows) all.1
      ∙ spared-delete_turn t rows all.0

  -- The spared rows stay, in their order, before rows that are new.
  abbrev pub Keeps : List Turn → List Turn → Type 0
  Keeps rows rows' =
      (extra : List Turn) × select (is_spared session_id turns) rows'
        ≡ select (is_spared session_id turns) rows ++ extra

  created-Keeps :
      (t : Turn) (rows mid rows' : List Turn)
      → select (is_spared session_id turns) mid ≡ select (is_spared session_id turns) rows
      → create_turn t mid ≡ some rows'
      → Keeps rows rows'
  unfolding create_turn
  created-Keeps t rows mid rows' same made =
      let spared = is_spared session_id turns in
      let row = normalized_turn t in
      let e : rows' ≡ mid ++ row ∷ [] = ground (arith, made) in
      (
        if spared row then row ∷ [] else [],
        ap (select spared) e
            ∙ select-snoc spared mid row
            ∙ ap (λ l. l ++ (if spared row then row ∷ [] else [])) same,
      )

  same-Keeps :
      (rows rows' : List Turn)
      → select (is_spared session_id turns) rows' ≡ select (is_spared session_id turns) rows
      → Keeps rows rows'
  same-Keeps rows rows' e = ([], e ∙ sym (append_nil (select (is_spared session_id turns) rows)))

  module _ (codec : Codec) (summarize preview : List Turn → String) where
    older_pass-Keeps :
        (act : String) (older : List Turn) (now : ℕ) (rows rows' : List Turn)
        → All IsOld older
        → (older_pass codec summarize preview act session_id older now rows).rows ≡ some rows'
        → Keeps rows rows'
    unfolding older_pass
    older_pass-Keeps act [] now rows rows' old h =
        same-Keeps rows rows' (ap (select (is_spared session_id turns)) (ground (arith, h)))
    older_pass-Keeps act (t ∷ ts) now rows rows' old h =
        elim (Bool-cases (str_eq act compact_action_summarize)) [
          | inl summarized ↦
              created-Keeps (summary_turn codec summarize preview session_id (t ∷ ts) now) rows
                (delete_turns (t ∷ ts) rows) rows' (spared-delete_turns (t ∷ ts) rows old)
                (ground (arith, h))
          | inr other ↦ elim (Bool-cases (str_eq act compact_action_drop)) [
            | inl dropped ↦ same-Keeps rows rows' (
                ap (select (is_spared session_id turns)) (ground (arith, h))
                ∙ spared-delete_turns (t ∷ ts) rows old)
            | inr kept ↦
                same-Keeps rows rows' (ap (select (is_spared session_id turns)) (ground (arith, h)))
          ]
        ]

    tool_pass-spared :
        (act : String) (outputs rows rows' : List Turn)
        → All IsOld outputs
        → (tool_pass codec summarize preview act outputs rows).rows ≡ some rows'
        → select (is_spared session_id turns) rows' ≡ select (is_spared session_id turns) rows
    unfolding tool_pass
    tool_pass-spared act outputs rows rows' old h =
        elim (Bool-cases (str_eq act compact_action_drop && not (is_empty outputs))) [
          | inl dropped ↦
              ap (select (is_spared session_id turns)) (ground (arith, h))
              ∙ spared-delete_turns outputs rows old
          | inr kept ↦ ap (select (is_spared session_id turns)) (ground (arith, h))
        ]

module _ (codec : Codec) (summarize preview : List Turn → String) (session_id : String)
    (window : ℕ) where
  tool_step-rows :
      (act : String) (outputs : List Turn) (first : Pass) (rows' : List Turn)
      (response : CompactApplyResponse) (detail : String)
      → tool_step codec summarize preview session_id window act outputs first
        ≡ compacted rows' response detail
      → (mid : List Turn) × first.rows ≡ some mid
        × (tool_pass codec summarize preview act outputs mid).rows ≡ some rows'
  tool_step-rows act outputs first rows' response detail h = elim (Option-cases first.rows) [
    | inl fails ↦ absurd (ground (arith, h, fails))
    | inr (mid, at) ↦ elim (Option-cases (tool_pass codec summarize preview act outputs mid).rows) [
      | inl fails ↦ absurd (ground (arith, h, at, fails))
      | inr (last, ok) ↦ (mid, at, ground (arith, h, at, ok))
    ]
  ]

All-both : (P Q : Turn → Type 0) (ts : List Turn) → All P ts → All Q ts → All (λ t. P t × Q t) ts
All-both P Q [] p q = tt
All-both P Q (t ∷ ts) p q = ((p.0, q.0), All-both P Q ts p.1 q.1)

module _ (session_id : String) (rows : List Turn) (once : is_distinct (ids rows) ≡ true) where
  abbrev pub listed : List Turn
  listed = list_turns session_id rows

  listed-distinct : is_distinct (ids listed) ≡ true
  unfolding list_turns
  listed-distinct = distinct-take 2000 (sort_by_sequence (select (is_of session_id) rows)) (
      distinct-sort (select (is_of session_id) rows) (distinct-select (is_of session_id) rows once))

  listed-own : All (λ t. is_of session_id t ≡ true) listed
  unfolding list_turns
  listed-own =
      All-take (λ t. is_of session_id t ≡ true) 2000
        (sort_by_sequence (select (is_of session_id) rows))
        (All-sort (λ t. is_of session_id t ≡ true) (select (is_of session_id) rows)
          (All-selected (is_of session_id) rows))

  before_recent-IsOld : All (IsOld session_id listed) (before_recent listed)
  before_recent-IsOld =
      All-both (λ t. is_of session_id t ≡ true)
        (λ t. text_mem t.id (ids (recent_turns listed)) ≡ false) (before_recent listed)
        (All-take (λ t. is_of session_id t ≡ true) (length listed - 3) listed listed-own)
        (disjoint-cut (length listed - 3) listed listed-distinct)

  -- Whatever the actions and the summary, a compaction that succeeds leaves the last three turns of
  -- the session and every other session's rows as they were, in their order; rows that it adds come
  -- after them.
  pub apply_compact_plan-Keeps :
      (codec : Codec) (summarize preview : List Turn → String) (actions : List (String × String))
      (window now : ℕ) (rows' : List Turn) (response : CompactApplyResponse) (detail : String)
      → apply_compact_plan codec summarize preview session_id actions window now rows
        ≡ compacted rows' response detail
      → Keeps session_id listed rows rows'
  unfolding apply_compact_plan
  apply_compact_plan-Keeps codec summarize preview actions window now rows' response detail h =
      let act = merged actions (build_compact_plan preview listed window).categories in
      let first =
        older_pass codec summarize preview (act compact_category_older) session_id
          (older_turns listed) now rows in
      let (mid, at, last) =
        tool_step-rows codec summarize preview session_id window (act compact_category_tool_output)
          (tool_outputs listed) first rows' response detail (ground (arith, h)) in
      let (extra, kept) =
        older_pass-Keeps session_id listed codec summarize preview (act compact_category_older)
          (older_turns listed) now rows mid
          (All-select (IsOld session_id listed) (λ t. not (is_tool t)) (before_recent listed)
            before_recent-IsOld)
          at in
      (
        extra,
        tool_pass-spared session_id listed codec summarize preview
              (act compact_category_tool_output) (tool_outputs listed) mid rows'
              (All-select (IsOld session_id listed) is_tool (before_recent listed)
                before_recent-IsOld)
              last
            ∙ kept,
      )
