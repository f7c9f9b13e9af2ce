-- ===== src/Shell/Queue.antt =====
-- internal/harnessshell/queue.go: follow-up submissions, their merge and the submit pipeline.
use modeltap.Prelude.{
  ℕ, ◌+◌, String, Bool, true, false, not, ◌&&◌, ◌||◌, List, [], ◌∷◌, ◌++◌, Option, none, some,
  length, is_empty, if◌then◌else◌,
}
use modeltap.Prelude.Int.{negsuc}
use modeltap.Prelude.Text.{◌<>◌, str_eq, trim_space, join, strip_char, cut_blank, decimal, insert}
use modeltap.Shell.Types.{
  InputToken, TokenKind, paste, file, SubmissionSource, direct, queue_release, StatusKind,
  CommandInvocation, submit_turn, run_host_command, CommandInvocation,
}
use modeltap.Shell.State.{
  State, Role, TranscriptItem, TranscriptItemKind, QueuedSubmission, Textarea,
}
use modeltap.Shell.Permissions.{
  current_pending_permission, permission_decision_from_action, resolve_active_permission,
}
use modeltap.Shell.Input.{push_history, sync_input_height}

-- What one queued submission adds to the parts of the merged text, and to the merged entries.
abbrev pub text_part : QueuedSubmission → List String
text_part q = let t = trim_space q.text in if str_eq t "" then [] else t ∷ []

abbrev pub entries_part : QueuedSubmission → List String
entries_part q = elim q.entries [ [] ↦ text_part q | e ∷ es ↦ e ∷ es ]

-- The loop of `mergeQueuedSubmissions` over `parts` and `merged`.
unfoldable pub merge_loop :
    List QueuedSubmission → List String → QueuedSubmission → QueuedSubmission
merge_loop [] parts merged = record merged { text = join "\n\n" parts }
merge_loop (q ∷ qs) parts merged = merge_loop qs (parts ++ text_part q) (record merged {
  entries = merged.entries ++ entries_part q;
  tokens = merged.tokens ++ q.tokens;
})

abbrev pub empty_submission : QueuedSubmission
empty_submission = record { id = ""; text = ""; tokens = []; entries = [] }

unfoldable pub merge_queued_submissions : List QueuedSubmission → QueuedSubmission
unfolding merge_loop
merge_queued_submissions [] = empty_submission
merge_queued_submissions (q ∷ qs) = merge_loop (q ∷ qs) [] empty_submission

abbrev pub is_paste : TokenKind → Bool
is_paste paste = true
is_paste file = false

unfoldable pub expanded_of : List InputToken → List (String × Bool) → List (String × Bool)
expanded_of [] m = m
expanded_of (t ∷ ts) m = expanded_of ts (if is_paste t.kind then insert t.id true m else m)

-- The two optimistic rows of a submission.
abbrev pub user_row : String → String → List String → List InputToken → TranscriptItem
user_row id content entries tokens = record {
  id = "msg-user-" <> id;
  kind = TranscriptItemKind.message;
  role = Role.user;
  text = trim_space content;
  tokens = tokens;
  expanded = expanded_of tokens [];
  event = none;
  streaming = false;
  entries = entries;
  submission_id = id;
  run_id = "";
}

abbrev pub assistant_row : String → TranscriptItem
assistant_row id = record {
  id = "msg-assistant-" <> id;
  kind = TranscriptItemKind.message;
  role = Role.assistant;
  text = "";
  tokens = [];
  expanded = [];
  event = none;
  streaming = true;
  entries = [];
  submission_id = id;
  run_id = "";
}

module _ {Area Cmd : Type 0} where
  abbrev pub has_queued_work : State Area Cmd → Bool
  has_queued_work s =
      if is_empty s.queued_submissions then not (is_empty s.pending_submissions) else true

  unfoldable pub next_submission_id : State Area Cmd → String × State Area Cmd
  next_submission_id s =
      let n = s.submission_counter + 1 in ("sub-" <> decimal n, record s { submission_counter = n })

  unfoldable pub enqueue_submission : String → List InputToken → State Area Cmd → State Area Cmd
  unfolding next_submission_id
  enqueue_submission content tokens s =
      let (id, s') = next_submission_id s in
      let q : QueuedSubmission = record {
        id = id;
        text = content;
        tokens = tokens;
        entries = if str_eq (trim_space content) "" then [] else content ∷ [];
      } in
      let qs = s'.queued_submissions ++ q ∷ [] in
      record s' {
        queued_submissions = qs;
        status = "Queued follow-up message (" <> decimal (length qs) <> " waiting)";
      }

  -- The promotion of the visible queue into an empty merge buffer.
  unfoldable pub promote_queue : State Area Cmd → State Area Cmd
  promote_queue s =
      if is_empty s.pending_submissions && not (is_empty s.queued_submissions)
      then record s {
        pending_submissions = s.pending_submissions ++ s.queued_submissions;
        queued_submissions = [];
      }
      else s

  unfoldable pub drain_queue_into_merged : State Area Cmd → Option QueuedSubmission × State Area Cmd
  unfolding promote_queue
  drain_queue_into_merged s =
      let s' = promote_queue s in
      if is_empty s'.pending_submissions then (none, s') else (
        some (merge_queued_submissions s'.pending_submissions),
        record s' { pending_submissions = [] },
      )

-- The name and the arguments in a slash command's line.
unfoldable pub parse_command : String → CommandInvocation
unfolding cut_blank
parse_command content =
    let trimmed : String = elim (strip_char 0x2f content) [ none ↦ content | some t ↦ t ] in
    let cut = cut_blank trimmed in
    record {
      name = elim cut [ none ↦ trimmed | some (a, b) ↦ a ];
      args = elim cut [ none ↦ "" | some (a, b) ↦ trim_space b ];
      raw = content;
    }

-- `strings.HasPrefix(content, "/") && len(content) > 1`.
abbrev pub is_slash_command : String → Bool
is_slash_command content = elim (strip_char 0x2f content) [
  | none ↦ false
  | some t ↦ not (str_eq t "")
]

module _ {Area Cmd : Type 0} (ops : Textarea Area) where
  -- What every submit path does to the composer.
  abbrev pub clear_composer : State Area Cmd → State Area Cmd
  clear_composer s =
      let s' = sync_input_height ops (record s { input = Textarea.reset ops s.input }) in
      record s' { input_tokens = []; selected_token = negsuc 0 }

  -- `at` is what `nowOrDefault` reads.
  unfoldable pub begin_submission :
      ℕ
      → String
      → List String
      → List InputToken
      → SubmissionSource
      → State Area Cmd
      → State Area Cmd
  unfolding next_submission_id sync_input_height
  begin_submission at content entries tokens source s =
      let (id, s₁) = next_submission_id s in
      let s₂ = clear_composer s₁ in
      record s₂ {
        transcript_items =
            s₂.transcript_items ++ user_row id content entries tokens ∷ assistant_row id ∷ [];
        status = "Submitted";
        status_kind = StatusKind.streaming;
        streaming = true;
        stream_pulse = 0;
        interrupt_armed = false;
        pending_actions =
            s₂.pending_actions
            ++ submit_turn (record {
              id = id;
              entries = entries;
              text = trim_space content;
              tokens = tokens;
              source = source;
              requested_at = at;
            })
              ∷ [];
      }

  unfoldable pub release_queued_submission : ℕ → State Area Cmd → State Area Cmd
  unfolding drain_queue_into_merged
  release_queued_submission at s =
      let (merged, s') = drain_queue_into_merged s in
      elim merged [
        | none ↦ s'
        | some m ↦ begin_submission at m.text m.entries m.tokens queue_release s'
      ]

  unfoldable pub dispatch_host_command : String → State Area Cmd → State Area Cmd
  unfolding sync_input_height
  dispatch_host_command content s =
      let c = parse_command content in
      let s' = clear_composer s in
      record s' {
        status = "Running /" <> c.name;
        status_kind = StatusKind.ready;
        pending_actions = s'.pending_actions ++ run_host_command c ∷ [];
      }

  -- Enter on an empty composer: answer a permission, or release the queue.
  unfoldable pub enter_on_empty : ℕ → State Area Cmd → Bool × State Area Cmd
  enter_on_empty at s =
      let (p, s₁) = current_pending_permission s in
      elim p [
        | some q ↦
            (true, resolve_active_permission (permission_decision_from_action q.selected_action) s₁)
        | none ↦
            if not s₁.streaming && has_queued_work s₁
            then (
              true,
              release_queued_submission at (record s₁ {
                status = "Releasing queued follow-up";
                status_kind = StatusKind.ready;
              }),
            )
            else (false, s₁)
      ]

  -- Enter on a message while a run streams or other messages wait.
  unfoldable pub enqueue_on_enter : ℕ → String → State Area Cmd → State Area Cmd
  unfolding enqueue_submission sync_input_height
  enqueue_on_enter at content s =
      let s' = clear_composer (enqueue_submission content s.input_tokens s) in
      if not s'.streaming then release_queued_submission at s' else s'

  unfoldable pub emit_submit_on_enter : ℕ → State Area Cmd → Bool × State Area Cmd
  emit_submit_on_enter at s =
      let content = trim_space (Textarea.value ops s.input) in
      if str_eq content "" && is_empty s.input_tokens
      then enter_on_empty at s
      else let s₁ = push_history content s in
        if is_slash_command content && is_empty s₁.input_tokens
        then (true, dispatch_host_command content s₁)
        else if s₁.streaming || has_queued_work s₁
        then (true, enqueue_on_enter at content s₁)
        else (true, begin_submission at content [] s₁.input_tokens direct s₁)
