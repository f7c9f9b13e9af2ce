-- ===== src/Shell/Input.antt =====
-- internal/harnessshell/input.go: command history and focus.
use modeltap.Prelude.{
  zero, suc, ◌+◌, ◌-◌, String, Bool, false, List, [], ◌∷◌, ◌++◌, none, some, length, get_last?, ltb,
  if◌then◌else◌, is_empty,
}
use modeltap.Prelude.Int.{ℤ, pos, negsuc, get_at?}
use modeltap.Prelude.Text.{str_eq, count_newlines}
use modeltap.Shell.State.{State, FocusZone, Textarea}

abbrev repeats_last : String → List String → Bool
repeats_last content h = elim (get_last? h) [ none ↦ false | some c ↦ str_eq c content ]

unfoldable pub next_focus : FocusZone → Bool → FocusZone
next_focus FocusZone.input open? = FocusZone.transcript
next_focus FocusZone.transcript open? = if open? then FocusZone.sidebar else FocusZone.input
next_focus FocusZone.sidebar open? = FocusZone.input

module _ {Area Cmd : Type 0} where
  unfoldable pub push_history : String → State Area Cmd → State Area Cmd
  push_history content s =
      let s' = record s { history_index = negsuc 0; history_draft = "" } in
      if str_eq content ""
      then s'
      else if repeats_last content s.command_history
      then s'
      else record s' { command_history = s.command_history ++ content ∷ [] }

module _ {Area Cmd : Type 0} (ops : Textarea Area) where
  unfoldable pub sync_input_height : State Area Cmd → State Area Cmd
  sync_input_height s = record s {
    input = Textarea.set_height ops (count_newlines (Textarea.value ops s.input) + 1) s.input;
  }

  -- `SetValue`, `CursorEnd` and `syncInputHeight` in turn.
  abbrev pub show_text : String → State Area Cmd → State Area Cmd
  show_text text s =
      sync_input_height
        (record s { input = Textarea.cursor_end ops (Textarea.set_value ops text s.input) })

  -- The entry that a history index names; Go would panic where there is none.
  abbrev pub show_entry : ℤ → State Area Cmd → State Area Cmd
  show_entry i s = elim (get_at? s.command_history i) [
    | none ↦ s
    | some c ↦ show_text c (record s { history_index = i })
  ]

  -- By the history index: -1, 0, above 0; a value below -1 falls to the last branch in Go too.
  recall_previous_at : ℤ → State Area Cmd → State Area Cmd
  recall_previous_at (negsuc zero) s =
      show_entry (pos (length s.command_history - 1))
        (record s { history_draft = Textarea.value ops s.input })
  recall_previous_at (pos (suc k)) s = show_entry (pos k) s
  recall_previous_at (pos zero) s = s
  recall_previous_at (negsuc (suc k)) s = s

  unfoldable pub recall_previous_command : State Area Cmd → State Area Cmd
  unfolding recall_previous_at sync_input_height
  recall_previous_command s =
      if is_empty s.command_history then s else recall_previous_at s.history_index s

  -- `historyIndex++` steps to an entry while there is a later one, and else back to the draft.
  recall_next_at : ℤ → State Area Cmd → State Area Cmd
  recall_next_at (negsuc zero) s = s
  recall_next_at (negsuc (suc k)) s = show_entry (negsuc k) s
  recall_next_at (pos k) s =
      if ltb (k + 1) (length s.command_history)
      then show_entry (pos (k + 1)) s
      else show_text s.history_draft (record s { history_index = negsuc 0; history_draft = "" })

  unfoldable pub recall_next_command : State Area Cmd → State Area Cmd
  unfolding recall_next_at sync_input_height
  recall_next_command s = recall_next_at s.history_index s
