-- ===== src/Compaction/Tokens.antt =====
-- The tokens of a plan.
use modeltap.Prelude.{
  ℕ, ◌≡◌, refl, ◌+◌, ◌-◌, ◌≤◌, zero, suc, String, Bool, false, not, List, [], ◌∷◌, ◌++◌, length,
  take, drop, select, leb, arith,
}
use modeltap.Conversation.Types.{Turn}
use modeltap.Compaction.Plan.{
  recent_turns_keep_floor, sum_turn_tokens, is_tool, before_recent, recent_turns, older_turns,
  tool_outputs, CompactCategory, category_of, estimated_freed, categories_of, build_compact_plan,
  nine_tenths, compact_action_drop, compact_action_summarize, compact_action_keep,
  compact_category_older, compact_category_tool_output, compact_category_recent,
}

abbrev pub token_total : List CompactCategory → ℕ
token_total [] = 0
token_total (c ∷ cs) = c.token_count + token_total cs

sum-take-drop :
    (n : ℕ) (ts : List Turn)
    → sum_turn_tokens ts ≡ sum_turn_tokens (take n ts) + sum_turn_tokens (drop n ts)
unfolding sum_turn_tokens
sum-take-drop zero ts = omega arith
sum-take-drop (suc n) [] = refl
sum-take-drop (suc n) (t ∷ ts) = omega (arith, sum-take-drop n ts)

sum-select :
    (p : Turn → Bool) (ts : List Turn)
    → sum_turn_tokens ts
      ≡ sum_turn_tokens (select (λ t. not (p t)) ts) + sum_turn_tokens (select p ts)
unfolding sum_turn_tokens
sum-select p [] = omega arith
sum-select p (t ∷ ts) = ground (arith, sum-select p ts)

-- Every turn is in one of the three buckets.
sum-buckets :
    (ts : List Turn)
    → sum_turn_tokens ts
      ≡ sum_turn_tokens (older_turns ts)
        + (sum_turn_tokens (tool_outputs ts) + sum_turn_tokens (recent_turns ts))
sum-buckets ts =
    omega (arith, sum-take-drop (length ts - 3) ts, sum-select is_tool (before_recent ts))

module _ (name : String) (score : ℕ) (preview : String) where
  total-category :
      (ts : List Turn) (action : String)
      → token_total (category_of ts name score action preview) ≡ sum_turn_tokens ts
  unfolding category_of
  total-category [] action = refl
  total-category (t ∷ ts) action = omega arith

  freed-drop :
      (ts : List Turn)
      → estimated_freed (category_of ts name score compact_action_drop preview) ≡ sum_turn_tokens ts
  unfolding category_of estimated_freed
  freed-drop [] = refl
  freed-drop (t ∷ ts) = omega arith

  freed-summarize :
      (ts : List Turn)
      → estimated_freed (category_of ts name score compact_action_summarize preview)
        ≡ nine_tenths (sum_turn_tokens ts)
  unfolding category_of estimated_freed
  freed-summarize [] = refl
  freed-summarize (t ∷ ts) = omega arith

  freed-keep :
      (ts : List Turn) → estimated_freed (category_of ts name score compact_action_keep preview) ≡ 0
  unfolding category_of estimated_freed
  freed-keep [] = refl
  freed-keep (t ∷ ts) = omega arith

total-append :
    (cs ds : List CompactCategory) → token_total (cs ++ ds) ≡ token_total cs + token_total ds
total-append [] ds = omega arith
total-append (c ∷ cs) ds = omega (arith, total-append cs ds)

freed-append :
    (cs ds : List CompactCategory)
    → estimated_freed (cs ++ ds) ≡ estimated_freed cs + estimated_freed ds
unfolding estimated_freed
freed-append [] ds = omega arith
freed-append (c ∷ cs) ds = omega (arith, freed-append cs ds)

module _ (preview : List Turn → String) (ts : List Turn) where
  abbrev older_category : List CompactCategory
  older_category =
      category_of (older_turns ts) compact_category_older 35 compact_action_summarize
        (preview (older_turns ts))

  abbrev tool_category : List CompactCategory
  tool_category =
      category_of (tool_outputs ts) compact_category_tool_output 15 compact_action_drop ""

  abbrev recent_category : List CompactCategory
  recent_category = category_of (recent_turns ts) compact_category_recent 95 compact_action_keep ""

  total-categories : token_total (categories_of preview ts) ≡ sum_turn_tokens ts
  unfolding categories_of
  total-categories = omega (
    arith,
    total-append older_category (tool_category ++ recent_category),
    total-append tool_category recent_category,
    total-category compact_category_older 35 (preview (older_turns ts)) (older_turns ts)
        compact_action_summarize,
    total-category compact_category_tool_output 15 "" (tool_outputs ts) compact_action_drop,
    total-category compact_category_recent 95 "" (recent_turns ts) compact_action_keep,
    sum-buckets ts,
  )

  freed-categories :
      estimated_freed (categories_of preview ts)
      ≡ nine_tenths (sum_turn_tokens (older_turns ts)) + sum_turn_tokens (tool_outputs ts)
  unfolding categories_of
  freed-categories = omega (
    arith,
    freed-append older_category (tool_category ++ recent_category),
    freed-append tool_category recent_category,
    freed-summarize compact_category_older 35 (preview (older_turns ts)) (older_turns ts),
    freed-drop compact_category_tool_output 15 "" (tool_outputs ts),
    freed-keep compact_category_recent 95 "" (recent_turns ts),
  )

  -- A plan over more than three turns accounts for every token once, and what it would free leaves
  -- the tokens of the last three turns.
  pub build_compact_plan-tokens :
      (window : ℕ)
      → leb (length ts) recent_turns_keep_floor ≡ false
      → token_total (build_compact_plan preview ts window).categories ≡ sum_turn_tokens ts
        × (build_compact_plan preview ts window).estimated_tokens_freed
            + sum_turn_tokens (recent_turns ts)
          ≤ sum_turn_tokens ts
        × (build_compact_plan preview ts window).context_pct_after.over
          ≡ sum_turn_tokens ts - (build_compact_plan preview ts window).estimated_tokens_freed
  unfolding build_compact_plan
  build_compact_plan-tokens window many =
      rw (build_compact_plan, many)
        (total-categories, omega (arith, freed-categories, sum-buckets ts), refl)
