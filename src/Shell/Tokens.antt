-- ===== src/Shell/Tokens.antt =====
-- internal/harnessshell/tokens.go: the choice, the preview and the expansion of tokens.
use modeltap.Prelude.{
  String, Bool, false, not, List, [], ◌∷◌, ◌++◌, Option, none, some, length, if◌then◌else◌,
}
use modeltap.Prelude.Int.{ℤ, pos, ◌+ℤ◌, get_at?, modify_at}
use modeltap.Prelude.Text.{◌<>◌, lookup, insert}
use modeltap.Shell.Types.{InputToken, paste, file, PreviewTarget, load_preview}
use modeltap.Shell.State.{State, TranscriptItem, TranscriptRef}
use modeltap.Shell.Permissions.{clamp_index}

-- Go's zero value for a missing key of `Expanded`.
abbrev pub is_expanded : String → List (String × Bool) → Bool
is_expanded id ids = elim (lookup id ids) [ none ↦ false | some b ↦ b ]

-- `item.Expanded[tok.ID] = !item.Expanded[tok.ID]`
abbrev pub toggle : String → TranscriptItem → TranscriptItem
toggle id it = record it { expanded = insert id (not (is_expanded id it.expanded)) it.expanded }

-- The index checks on a reference, and the item and the token it names.
abbrev pub item_and_token :
    TranscriptRef → List TranscriptItem → Option (TranscriptItem × InputToken)
item_and_token ref items = elim (get_at? items ref.message_index) [
  | none ↦ none
  | some it ↦ elim (get_at? it.tokens ref.token_index) [ none ↦ none | some tok ↦ some (it, tok) ]
]

-- The indices of a composer token are Go's zero values.
abbrev pub composer_target : InputToken → PreviewTarget
composer_target tok = record {
  token_id = tok.id;
  source = "composer";
  message_index = pos 0;
  token_index = pos 0;
}

abbrev transcript_target : TranscriptRef → InputToken → PreviewTarget
transcript_target ref tok = record {
  token_id = tok.id;
  source = "transcript";
  message_index = ref.message_index;
  token_index = ref.token_index;
}

module _ {Area Cmd : Type 0} where
  unfoldable pub move_token_selection : ℤ → State Area Cmd → State Area Cmd
  move_token_selection delta s =
      let i = clamp_index (length s.input_tokens) (s.selected_token +ℤ delta) in
      elim (get_at? s.input_tokens i) [
        | none ↦ s
        | some tok ↦ record s { selected_token = i; status = "Selected " <> tok.label }
      ]

  -- What a file token does: the host is asked for the content.
  abbrev pub ask_for_preview : PreviewTarget → InputToken → State Area Cmd → State Area Cmd
  ask_for_preview target tok s = record s {
    pending_actions = s.pending_actions ++ load_preview target ∷ [];
    status = "Loading preview for " <> tok.label;
  }

  -- What a paste token does: its payload is shown.
  abbrev pub show_payload : InputToken → State Area Cmd → State Area Cmd
  show_payload tok s = record s {
    preview = some (record { title = tok.label; content = tok.payload });
    status = "Previewing " <> tok.label;
  }

  abbrev pub preview_token : PreviewTarget → InputToken → State Area Cmd → State Area Cmd
  preview_token target tok s = elim tok.kind [
    | paste ↦ show_payload tok s
    | file ↦ ask_for_preview target tok s
  ]

  unfoldable pub preview_selected_composer_token : State Area Cmd → State Area Cmd
  preview_selected_composer_token s = elim (get_at? s.input_tokens s.selected_token) [
    | none ↦ s
    | some tok ↦ preview_token (composer_target tok) tok s
  ]

  abbrev pub expand : TranscriptRef → TranscriptItem → InputToken → State Area Cmd → State Area Cmd
  expand ref it tok s = record s {
    transcript_items = modify_at s.transcript_items ref.message_index (toggle tok.id);
    status = (if is_expanded tok.id it.expanded then "Collapsed " else "Expanded ") <> tok.label;
  }

  unfoldable pub activate_selected_transcript_ref : State Area Cmd → State Area Cmd
  activate_selected_transcript_ref s = elim (get_at? s.transcript_refs s.selected_transcript_ref) [
    | none ↦ s
    | some ref ↦ elim (item_and_token ref s.transcript_items) [
      | none ↦ s
      | some (it, tok) ↦ elim tok.kind [
        | paste ↦ expand ref it tok s
        | file ↦ ask_for_preview (transcript_target ref tok) tok s
      ]
    ]
  ]

  unfoldable pub preview_selected_transcript_ref : State Area Cmd → State Area Cmd
  preview_selected_transcript_ref s = elim (get_at? s.transcript_refs s.selected_transcript_ref) [
    | none ↦ s
    | some ref ↦ elim (item_and_token ref s.transcript_items) [
      | none ↦ s
      | some (it, tok) ↦ preview_token (transcript_target ref tok) tok s
    ]
  ]
