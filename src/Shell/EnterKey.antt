-- ===== src/Shell/EnterKey.antt =====
-- internal/harnessshell/model.go and queue.go: the Enter key with the focus on the composer.
use modeltap.Prelude.{
  ℕ, ◌≡◌, ap, Bool, true, false, ◌&&◌, ◌||◌, [], ◌∷◌, ◌++◌, is_empty, String, if◌then◌else◌,
}
use modeltap.Prelude.Text.{trim_space, str_eq}
use modeltap.Shell.Types.{run_host_command}
use modeltap.Shell.State.{State, Textarea}
use modeltap.Shell.Input.{sync_input_height}
use modeltap.Shell.Queue.{is_slash_command, parse_command, emit_submit_on_enter}
use modeltap.Shell.Release.{Outbox}
use modeltap.Shell.Enter.{emit_command-Outbox}

abbrev pub is_shell_native_quit_command : String → Bool
is_shell_native_quit_command content =
    let c = trim_space content in str_eq c "/quit" || str_eq c "/exit"

abbrev pub is_shell_native_select_command : String → Bool
is_shell_native_select_command content = str_eq (trim_space content) "/select"

-- What the key comes to.
pub data EnterKey (S : Type 0) : Type 0 where
  quits : S → EnterKey S
  toggles_select : EnterKey S
  consumed : S → EnterKey S
  -- The text area gets the key.
  forwarded : S → EnterKey S

module _ {Area Cmd : Type 0} (ops : Textarea Area) (at : ℕ) where
  abbrev routed : Bool × State Area Cmd → EnterKey (State Area Cmd)
  routed (true, s) = consumed s
  routed (false, s) = forwarded s

  unfoldable pub handle_enter : State Area Cmd → EnterKey (State Area Cmd)
  unfolding sync_input_height emit_submit_on_enter
  handle_enter s =
      let value = Textarea.value ops s.input in
      if is_shell_native_quit_command value && is_empty s.input_tokens
      then quits (record (sync_input_height ops (record s { input = Textarea.reset ops s.input })) {
        status = "Exiting";
      })
      else if is_shell_native_select_command value && is_empty s.input_tokens
      then toggles_select
      else routed (emit_submit_on_enter ops at s)

  -- Enter on a slash command, with no token in the composer and nothing half released, runs it at once,
  -- unless it is /quit, /exit or /select, which the shell keeps: the key is consumed, one command
  -- action with the whole line goes to the host, also while a run streams and also for /clear, and
  -- the queue, the transcript and the run are left alone.
  pub handle_enter-Outbox :
      (s : State Area Cmd)
      → is_shell_native_quit_command (Textarea.value ops s.input) ≡ false
      → is_shell_native_select_command (Textarea.value ops s.input) ≡ false
      → let content : String = trim_space (Textarea.value ops s.input) in
        (is_slash_command content && is_empty s.input_tokens) ≡ true
        → s.pending_submissions ≡ []
        → let s' : State Area Cmd = (emit_submit_on_enter ops at s).1 in
          let content : String = trim_space (Textarea.value ops s.input) in
          (handle_enter s ≡ consumed s')
          × Outbox s'
              (s.pending_actions ++ run_host_command (parse_command content) ∷ [])
              s.queued_submissions
          × (s'.transcript_items ≡ s.transcript_items)
          × (s'.streaming ≡ s.streaming)
  unfolding handle_enter
  handle_enter-Outbox s quit select slash p =
      let did = emit_command-Outbox ops at s slash p in
      (
        rw (handle_enter, quit, select)
            (ap (λ b. routed (b, (emit_submit_on_enter ops at s).1)) did.0),
        did.1,
        did.2,
        did.3,
      )
