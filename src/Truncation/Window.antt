-- ===== src/Truncation/Window.antt =====
-- What is kept is the longest recent part of the conversation that fits the window.
use modeltap.Prelude.{
  ℕ, ◌+◌, ◌-◌, ◌≤◌, ◌<◌, ◌≡◌, ◌⊎◌, refl, ap, inl, inr, String, true, false, List, [], ◌∷◌, ◌++◌,
  is_empty, ltb, arith, Bool-cases,
}
use modeltap.Prelude.Int.{pos}
use modeltap.Prelude.Text.{text_mem}
use modeltap.Truncation.Types.{Message, Encoding, estimate_tokens, estimate_message_tokens}
use modeltap.Truncation.Truncate.{
  fits, Walk, tool_use_ids, tool_result_ids, has_user, reconcile, checked, walk_step, walk,
  truncate,
}
use modeltap.Truncation.Pairs.{reconcile-pairs}

module _ (enc : Encoding) where
  abbrev pub tokens_sum : List Message → ℕ
  tokens_sum [] = 0
  tokens_sum (m ∷ ms) = estimate_message_tokens enc m + tokens_sum ms

  -- `kept` is the end of the messages; it fits, and with the message before it it would not.
  abbrev pub IsWindow : ℕ → List Message → List Message → Type 0
  IsWindow remaining msgs kept =
      (tokens_sum kept ≤ remaining)
      × ((kept ≡ msgs)
          ⊎ ((older : List Message) × (m : Message) × (older ++ m ∷ kept ≡ msgs)
              × (remaining < tokens_sum kept + estimate_message_tokens enc m)))

  abbrev IsWalk : ℕ → List Message → Walk → Type 0
  IsWalk remaining msgs w =
      (w.cumulative ≡ tokens_sum w.kept)
      × (tokens_sum w.kept ≤ remaining)
      × (((w.stopped ≡ false) × (w.kept ≡ msgs))
          ⊎ ((w.stopped ≡ true)
              × (older : List Message) × (m : Message) × (older ++ m ∷ w.kept ≡ msgs)
              × (remaining < tokens_sum w.kept + estimate_message_tokens enc m)))

  walk_step-IsWalk :
      (remaining : ℕ) (m : Message) (ms : List Message) (w : Walk)
      → IsWalk remaining ms w
      → IsWalk remaining (m ∷ ms) (walk_step enc remaining m w)
  unfolding walk_step
  walk_step-IsWalk remaining m ms w (total, within, inr (stopped, older, x, split, over)) =
      rw (stopped, walk_step) (total, within, inr (refl, m ∷ older, x, ap (λ l. m ∷ l) split, over))
  walk_step-IsWalk remaining m ms w (total, within, inl (on, all_kept)) =
      elim (Bool-cases (ltb remaining (w.cumulative + estimate_message_tokens enc m))) [
        | inl over ↦
            rw (on, over, walk_step)
              (total, within, inr (refl, [], m, ap (λ l. m ∷ l) all_kept, ground (arith, total)))
        | inr fit ↦
            rw (on, fit, walk_step)
              (ground (arith, total), ground (arith, total), inl (refl, ap (λ l. m ∷ l) all_kept))
      ]

  walk-IsWalk :
      (remaining : ℕ) (msgs : List Message) → IsWalk remaining msgs (walk enc remaining msgs)
  unfolding walk
  walk-IsWalk remaining [] = (refl, omega arith, inl (refl, refl))
  walk-IsWalk remaining (m ∷ ms) =
      walk_step-IsWalk remaining m ms (walk enc remaining ms) (walk-IsWalk remaining ms)

  walk-IsWindow :
      (remaining : ℕ) (msgs : List Message) → IsWindow remaining msgs (walk enc remaining msgs).kept
  walk-IsWindow remaining msgs =
      let (_, within, cut) = walk-IsWalk remaining msgs in
      (within, elim cut [ inl (_, whole) ↦ inl whole | inr (_, o, m, e, v) ↦ inr (o, m, e, v) ])

  checked-fits :
      (result out : List Message)
      → checked result ≡ fits out
      → (out ≡ result) × (has_user out ≡ true)
  checked-fits result out h = ground arith

  -- A truncation to a window of a positive size that succeeds keeps the longest end of the
  -- conversation whose tokens and the system prompt's fit the window, with the orphans of tool pairs
  -- removed. It holds a user or tool message, and each identifier that it calls it answers, and
  -- the other way round.
  pub truncate-IsWindow :
      (msgs : List Message) (system_prompt : String) (window_size : ℕ) (out : List Message)
      → truncate enc msgs system_prompt (pos window_size) ≡ fits out
      → 0 < window_size
      → (kept : List Message) × IsWindow (window_size - estimate_tokens system_prompt) msgs kept
        × (estimate_tokens system_prompt + tokens_sum kept ≤ window_size)
        × (out ≡ reconcile kept)
        × (has_user out ≡ true)
        × ((id : String) → text_mem id (tool_use_ids out) ≡ text_mem id (tool_result_ids out))
  unfolding truncate
  truncate-IsWindow msgs system_prompt window_size out h positive =
      let remaining = window_size - estimate_tokens system_prompt in
      let kept = (walk enc remaining msgs).kept in
      let window = walk-IsWindow remaining msgs in
      let passed : (checked (reconcile kept) ≡ fits out)
          × (estimate_tokens system_prompt < window_size) =
        ground arith in
      let (same, user) = checked-fits (reconcile kept) out passed.0 in
      (
        kept,
        window,
        omega (arith, window.0, passed.1),
        same,
        user,
        λ id. rw same (reconcile-pairs id kept).0,
      )

  tokens_sum-append : (xs ys : List Message) → tokens_sum (xs ++ ys) ≡ tokens_sum xs + tokens_sum ys
  tokens_sum-append [] ys = omega arith
  tokens_sum-append (x ∷ xs) ys = omega (arith, tokens_sum-append xs ys)

  window_whole :
      (remaining : ℕ) (msgs kept : List Message)
      → IsWindow remaining msgs kept
      → tokens_sum msgs ≤ remaining
      → kept ≡ msgs
  window_whole remaining msgs kept (_, inl whole) fit = whole
  window_whole remaining msgs kept (_, inr (older, m, split, over)) fit =
      ground (arith, tokens_sum-append older (m ∷ kept), split)

  -- A conversation that fits the window as a whole is only reconciled.
  pub truncate-whole :
      (msgs : List Message) (system_prompt : String) (window_size : ℕ)
      → is_empty msgs ≡ false
      → estimate_tokens system_prompt < window_size
      → estimate_tokens system_prompt + tokens_sum msgs ≤ window_size
      → truncate enc msgs system_prompt (pos window_size) ≡ checked (reconcile msgs)
  unfolding truncate
  truncate-whole msgs system_prompt window_size some_left room fit =
      let remaining = window_size - estimate_tokens system_prompt in
      let whole =
        window_whole remaining msgs (walk enc remaining msgs).kept (walk-IsWindow remaining msgs)
          (omega (arith, room, fit)) in
      ground (arith, whole)
