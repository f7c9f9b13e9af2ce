-- ===== src/Shell/Expand.antt =====
-- The expansion of a pasted token in the transcript (internal/harnessshell/tokens.go).
use modeltap.Prelude.{
  ℕ, zero, suc, ◌≡◌, refl, ap, sym, ◌∙◌, String, Bool, not, List, [], ◌∷◌, some, arith,
  if◌then◌else◌, get_elem?, modify,
}
use mathlib.Core.Path.{subst}
use text.Mathlib.TextEquality.{eq_iff}
use modeltap.Prelude.Int.{ℤ, pos, negsuc, get_at?, modify_at}
use modeltap.Prelude.Text.{str_eq, lookup-insert}
use modeltap.Shell.Types.{InputToken, paste}
use modeltap.Shell.State.{State, TranscriptItem, TranscriptRef}
use modeltap.Shell.Tokens.{
  is_expanded, toggle, item_and_token, expand, activate_selected_transcript_ref,
}

get_elem?-modify {ℓ} :
    {A : Type ℓ} (xs : List A) (i : ℕ) (f : A → A) (x : A)
    → get_elem? xs i ≡ some x
    → get_elem? (modify xs i f) i ≡ some (f x)
get_elem?-modify [] i f x h = absurd (ground arith)
get_elem?-modify (y ∷ xs) zero f x h = cc
get_elem?-modify (y ∷ xs) (suc i) f x h = get_elem?-modify xs i f x h

get_at?-modify_at {ℓ} :
    {A : Type ℓ} (xs : List A) (i : ℤ) (f : A → A) (x : A)
    → get_at? xs i ≡ some x
    → get_at? (modify_at xs i f) i ≡ some (f x)
get_at?-modify_at xs (pos i) f x h = get_elem?-modify xs i f x h
get_at?-modify_at xs (negsuc i) f x h = absurd (ground arith)

-- A token's flag after a toggle of another or of itself.
is_expanded-toggle :
    (id j : String) (it : TranscriptItem)
    → is_expanded j (toggle id it).expanded
      ≡ (if str_eq id j then not (is_expanded id it.expanded) else is_expanded j it.expanded)
is_expanded-toggle id j it =
    ground (arith, lookup-insert id j (not (is_expanded id it.expanded)) it.expanded)

-- The reference that is selected names a pasted token of an item.
pub record NamesPaste {Area Cmd : Type 0} (s : State Area Cmd) (ref : TranscriptRef)
    (it : TranscriptItem) (tok : InputToken) : Type 0 where
  pub selected : get_at? s.transcript_refs s.selected_transcript_ref ≡ some ref
  pub item : get_at? s.transcript_items ref.message_index ≡ some it
  pub token : get_at? it.tokens ref.token_index ≡ some tok
  pub pasted : tok.kind ≡ paste

activate-expand :
    {Area Cmd : Type 0} (s : State Area Cmd) (ref : TranscriptRef) (it : TranscriptItem)
    (tok : InputToken)
    → NamesPaste s ref it tok
    → activate_selected_transcript_ref s ≡ expand ref it tok s
unfolding activate_selected_transcript_ref
activate-expand s ref it tok h =
    rw (h.selected, activate_selected_transcript_ref, h.item, item_and_token, h.token, h.pasted)
      refl

expand-NamesPaste :
    {Area Cmd : Type 0} (s : State Area Cmd) (ref : TranscriptRef) (it : TranscriptItem)
    (tok : InputToken)
    → NamesPaste s ref it tok
    → NamesPaste (expand ref it tok s) ref (toggle tok.id it) tok
expand-NamesPaste s ref it tok h = record {
  selected = h.selected;
  item = get_at?-modify_at s.transcript_items ref.message_index (toggle tok.id) it h.item;
  token = h.token;
  pasted = h.pasted;
}

toggle-toggle :
    (id j : String) (it : TranscriptItem)
    → is_expanded j (toggle id (toggle id it)).expanded ≡ is_expanded j it.expanded
toggle-toggle id j it = ground (
  arith,
  eq_iff id j,
  eq_iff id id,
  is_expanded-toggle id j (toggle id it),
  is_expanded-toggle id j it,
  is_expanded-toggle id id it,
)

-- What a state shows of an item: its text and tokens, and each token expanded as `flag` says.
pub record Shows {Area Cmd : Type 0} (s : State Area Cmd) (ref : TranscriptRef)
    (it : TranscriptItem) (flag : String → Bool) : Type 0 where
  pub now : TranscriptItem
  pub found : get_at? s.transcript_items ref.message_index ≡ some now
  pub same_text : now.text ≡ it.text
  pub same_tokens : now.tokens ≡ it.tokens
  pub flags : (j : String) → is_expanded j now.expanded ≡ flag j

abbrev pub flipped : String → TranscriptItem → String → Bool
flipped id it j =
    if str_eq id j then not (is_expanded id it.expanded) else is_expanded j it.expanded

-- Where the selected reference names a pasted token, Enter flips the expansion of that token in its
-- item and of no other, and Enter once more shows the item as it was; text and tokens stay.
pub activate-activate :
    {Area Cmd : Type 0} (s : State Area Cmd) (ref : TranscriptRef) (it : TranscriptItem)
    (tok : InputToken)
    → NamesPaste s ref it tok
    → Shows (activate_selected_transcript_ref s) ref it (flipped tok.id it)
      × Shows
          (activate_selected_transcript_ref (activate_selected_transcript_ref s))
          ref
          it
          (λ j. is_expanded j it.expanded)
activate-activate s ref it tok h =
    let h' = expand-NamesPaste s ref it tok h in
    let h'' = expand-NamesPaste (expand ref it tok s) ref (toggle tok.id it) tok h' in
    let once = activate-expand s ref it tok h in
    let twice : activate_selected_transcript_ref (activate_selected_transcript_ref s)
        ≡ expand ref (toggle tok.id it) tok (expand ref it tok s) =
      ap activate_selected_transcript_ref once
      ∙ activate-expand (expand ref it tok s) ref (toggle tok.id it) tok h' in
    (
      subst (λ t. Shows t ref it (flipped tok.id it)) (sym once)
          (record {
            now = toggle tok.id it;
            found = h'.item;
            same_text = refl;
            same_tokens = refl;
            flags = λ j. is_expanded-toggle tok.id j it;
          }),
      subst (λ t. Shows t ref it (λ j. is_expanded j it.expanded)) (sym twice)
          (record {
            now = toggle tok.id (toggle tok.id it);
            found = h''.item;
            same_text = refl;
            same_tokens = refl;
            flags = λ j. toggle-toggle tok.id j it;
          }),
    )
