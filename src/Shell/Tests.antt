-- ===== src/Shell/Tests.antt =====
-- Runs of the shell over a text area that is a plain text, and the theorems at concrete inputs.
use modeltap.Prelude.{◌≡◌, refl, String, Bool, true, false, List, [], ◌∷◌, none, flat_map}
use modeltap.Prelude.Text.{trim_space, join}
use modeltap.Shell.Types.{
  submission_accepted, run_started, run_delta, run_completed, run_stopped, interrupt,
}
use modeltap.Shell.State.{State, Textarea, QueuedSubmission}
use modeltap.Shell.Queue.{merge_queued_submissions, emit_submit_on_enter, parse_command}
use modeltap.Shell.Events.{apply_host_event}
use modeltap.Shell.Step.{ShellInput, from_host, enter, new_state, run}
use modeltap.Shell.Invariant.{Inv}
use modeltap.Shell.Merge.{spoken, kept, merge_queued_submissions-keeps}
use modeltap.Shell.Release.{Outbox, release_actions, run_completed-Outbox, event_keeps-Outbox}
use modeltap.Shell.Enter.{emit_submit-Outbox}
use modeltap.Shell.EnterKey.{EnterKey, quits, consumed, handle_enter, handle_enter-Outbox}
use modeltap.Shell.Reach.{run-Inv}

-- A text area without cursor and height.
abbrev plain_area : Textarea String
plain_area = record {
  value = λ a. a;
  set_value = λ t a. t;
  cursor_end = λ a. a;
  reset = λ a. "";
  set_height = λ n a. a;
}

abbrev Plain : Type 0
Plain = State String (Unit {0})

abbrev idle : String → Plain
idle text = new_state text none

abbrev busy : String → Plain
busy text = record (idle text) { streaming = true; active_run_id = "r1" }

abbrev follow_up : QueuedSubmission
follow_up = record { id = "sub-1"; text = " second "; tokens = []; entries = " second " ∷ [] }

abbrev third : QueuedSubmission
third = record { id = "sub-2"; text = "third"; tokens = []; entries = [] }

abbrev waiting_shell : String → Plain
waiting_shell text = record (busy text) {
  queued_submissions = follow_up ∷ third ∷ [];
  submission_counter = 2;
}

merged_text : (merge_queued_submissions (follow_up ∷ third ∷ [])).text ≡ "second\n\nthird"
unfolding merge_queued_submissions trim_space join
merged_text = refl

merged_entries :
    (merge_queued_submissions (follow_up ∷ third ∷ [])).entries ≡ " second " ∷ "third" ∷ []
unfolding merge_queued_submissions trim_space join
merged_entries = refl

parsed : (parse_command "/model opus  4").args ≡ "opus  4"
unfolding parse_command trim_space
parsed = refl

merge_queued_submissions_example :
    (merge_queued_submissions (follow_up ∷ third ∷ [])).text
      ≡ join "\n\n" (spoken (follow_up ∷ third ∷ []))
    × (merge_queued_submissions (follow_up ∷ third ∷ [])).entries
      ≡ flat_map kept (follow_up ∷ third ∷ [])
    × (merge_queued_submissions (follow_up ∷ third ∷ [])).tokens
      ≡ flat_map (λ q. q.tokens) (follow_up ∷ third ∷ [])
merge_queued_submissions_example = merge_queued_submissions-keeps (follow_up ∷ third ∷ [])

run_completed_example :
    Outbox
      (apply_host_event plain_area 5 (run_completed "r1") (waiting_shell ""))
      (release_actions 5 3 (follow_up ∷ third ∷ []))
      []
run_completed_example = run_completed-Outbox plain_area 5 "r1" (waiting_shell "") refl

event_keeps_example :
    Outbox
      (apply_host_event plain_area 5 (run_stopped "r1" interrupt "") (waiting_shell ""))
      []
      (follow_up ∷ third ∷ [])
event_keeps_example =
    event_keeps-Outbox plain_area 5 (run_stopped "r1" interrupt "") (waiting_shell "") refl refl

emit_submit_example : (emit_submit_on_enter plain_area 7 (waiting_shell "more")).0 ≡ true
emit_submit_example =
    (emit_submit-Outbox plain_area 7 (waiting_shell "more") (unfold trim_space in refl)
      (unfold trim_space in refl) refl).0

abbrev is_quit : {S : Type 0} → EnterKey S → Bool
is_quit (quits s) = true
is_quit _ = false

handle_enter-Outbox_example :
    handle_enter plain_area 7 (waiting_shell "/cancel")
    ≡ consumed (emit_submit_on_enter plain_area 7 (waiting_shell "/cancel")).1
handle_enter-Outbox_example =
    (handle_enter-Outbox plain_area 7 (waiting_shell "/cancel") (unfold trim_space in refl)
      (unfold trim_space in refl) (unfold trim_space in refl) refl).0

-- The shell keeps /quit for itself.
quit_key : is_quit (handle_enter plain_area 7 (waiting_shell " /quit ")) ≡ true
unfolding handle_enter trim_space
quit_key = refl

abbrev session : List ShellInput
session =
    enter 1
    ∷ from_host 2 (submission_accepted "sub-1" "r1")
    ∷ from_host 3 (run_started "sub-1" "r1" "")
    ∷ from_host 4 (run_delta "r1" "hi")
    ∷ from_host 5 (run_completed "r1")
    ∷ []

run_example : Inv (run plain_area session (new_state {Cmd = Unit {0}} "hello" none))
run_example = run-Inv plain_area session "hello" none
