-- ===== src/Shell/TokenTests.antt =====
-- Tokens of the composer and of the transcript at concrete inputs.
use modeltap.Prelude.{◌≡◌, refl, String, false, [], ◌∷◌, none}
use modeltap.Prelude.Int.{◌+ℤ◌, pos}
use modeltap.Shell.Types.{InputToken, paste, file}
use modeltap.Shell.State.{State, TranscriptItem, TranscriptItemKind, TranscriptRef, Role}
use modeltap.Shell.Step.{new_state}
use modeltap.Shell.Tokens.{
  move_token_selection, activate_selected_transcript_ref, preview_selected_transcript_ref,
}
use modeltap.Shell.Expand.{NamesPaste}

abbrev snippet : InputToken
snippet = record { id = "paste-1"; kind = paste; label = "paste-1"; payload = "a\nb" }

abbrev picture : InputToken
picture = record { id = "file-2"; kind = file; label = "image-2 (a.png)"; payload = "/tmp/a.png" }

abbrev sent : TranscriptItem
sent = record {
  id = "t1";
  kind = TranscriptItemKind.message;
  role = Role.user;
  text = "look";
  tokens = snippet ∷ picture ∷ [];
  expanded = [];
  event = none;
  streaming = false;
  entries = [];
  submission_id = "sub-1";
  run_id = "";
}

abbrev to_snippet : TranscriptRef
to_snippet = record { message_index = pos 0; token_index = pos 0 }

abbrev Plain : Type 0
Plain = State String (Unit {0})

abbrev shell : Plain
shell = record (new_state "" none) {
  input_tokens = snippet ∷ picture ∷ [];
  selected_token = pos 0;
  transcript_items = sent ∷ [];
  transcript_refs = to_snippet ∷ [];
  selected_transcript_ref = pos 0;
}

past_the_end : (move_token_selection (pos 5) shell).status ≡ "Selected image-2 (a.png)"
unfolding move_token_selection ◌+ℤ◌
past_the_end = refl

previewed : (preview_selected_transcript_ref shell).status ≡ "Previewing paste-1"
unfolding preview_selected_transcript_ref
previewed = refl

expanded_once : (activate_selected_transcript_ref shell).status ≡ "Expanded paste-1"
unfolding activate_selected_transcript_ref
expanded_once = refl

shell_names : NamesPaste shell to_snippet sent snippet
shell_names = record { selected = refl; item = refl; token = refl; pasted = refl }
