-- ===== src/Shell/Select.antt =====
-- The chosen token of the composer (internal/harnessshell/tokens.go).
use modeltap.Prelude.{◌≡◌, refl, ap, sym, none, some, List, ◌∷◌, length}
use mathlib.Core.Path.{subst}
use modeltap.Prelude.Int.{ℤ, ◌+ℤ◌, get_at?}
use modeltap.Prelude.Text.{◌<>◌}
use modeltap.Shell.Types.{InputToken}
use modeltap.Shell.State.{State}
use modeltap.Shell.Permissions.{clamp_index}
use modeltap.Shell.Pending.{get_at?-clamp}
use modeltap.Shell.Tokens.{
  move_token_selection, preview_selected_composer_token, preview_token, composer_target,
}

-- The token a state has chosen, the status that names it, and what a preview of it does.
pub record Chosen {Area Cmd : Type 0} (s : State Area Cmd) (tok : InputToken) : Type 0 where
  pub at_selection : get_at? s.input_tokens s.selected_token ≡ some tok
  pub named : s.status ≡ "Selected " <> tok.label
  pub previewed : preview_selected_composer_token s ≡ preview_token (composer_target tok) tok s

-- Where the clamped index names a token, the move takes it.
move_token_selection-some :
    {Area Cmd : Type 0} (delta : ℤ) (s : State Area Cmd) (tok : InputToken)
    → get_at? s.input_tokens (clamp_index (length s.input_tokens) (s.selected_token +ℤ delta))
      ≡ some tok
    → move_token_selection delta s ≡ record s {
      selected_token = clamp_index (length s.input_tokens) (s.selected_token +ℤ delta);
      status = "Selected " <> tok.label;
    }
unfolding move_token_selection
move_token_selection-some delta s tok e =
    ap
      (λ o. elim o [
        | none ↦ s
        | some t ↦ record s {
          selected_token = clamp_index (length s.input_tokens) (s.selected_token +ℤ delta);
          status = "Selected " <> t.label;
        }
      ])
      e

preview_selected-some :
    {Area Cmd : Type 0} (s : State Area Cmd) (tok : InputToken)
    → get_at? s.input_tokens s.selected_token ≡ some tok
    → preview_selected_composer_token s ≡ preview_token (composer_target tok) tok s
unfolding preview_selected_composer_token
preview_selected-some s tok e =
    ap (λ o. elim o [ none ↦ s | some t ↦ preview_token (composer_target t) t s ]) e

-- With a token in the composer, moving the selection by any amount, also past either end, chooses
-- a token: the status names it, a preview opens it, and the composer's tokens are as they were.
pub move_token_selection-Chosen :
    {Area Cmd : Type 0} (delta : ℤ) (s : State Area Cmd) (x : InputToken) (xs : List InputToken)
    → s.input_tokens ≡ x ∷ xs
    → (tok : InputToken) × Chosen (move_token_selection delta s) tok
      × ((move_token_selection delta s).input_tokens ≡ x ∷ xs)
move_token_selection-Chosen {Area} {Cmd} delta s x xs h =
    let i = clamp_index (length s.input_tokens) (s.selected_token +ℤ delta) in
    let (tok, e) = get_at?-clamp x xs (s.selected_token +ℤ delta) in
    let found : get_at? s.input_tokens i ≡ some tok = rw h e in
    let t : State Area Cmd = record s { selected_token = i; status = "Selected " <> tok.label } in
    let chosen : Chosen t tok = record {
      at_selection = found;
      named = refl;
      previewed = preview_selected-some t tok found;
    } in
    let kept =
      subst (λ u. Chosen u tok × (u.input_tokens ≡ x ∷ xs))
        (sym (move_token_selection-some delta s tok found)) (chosen, h) in
    (tok, kept.0, kept.1)
