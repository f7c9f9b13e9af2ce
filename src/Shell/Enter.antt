-- ===== src/Shell/Enter.antt =====
-- What Enter does with the composer's message: `emitSubmitOnEnter` on every path.
use modeltap.Prelude.{
  ℕ, ◌≡◌, refl, ap, ◌∙◌, Bool, true, false, ◌&&◌, List, [], ◌∷◌, ◌++◌, arith, String, ◌+◌, is_empty,
  Bool-cases, inl, inr, if◌then◌else◌,
}
use text.Mathlib.TextLemmas.{cons-ne-nil}
use modeltap.Prelude.Text.{◌<>◌, decimal, trim_space, str_eq, str_eq_iff}
use mathlib.Core.List.{append-nil}
use mathlib.Core.Bool.{◌||◌}
use modeltap.Shell.Types.{Action, submit_turn, run_host_command, direct, Submission, InputToken}
use modeltap.Shell.State.{State, QueuedSubmission, Textarea}
use modeltap.Shell.Input.{push_history}
use modeltap.Shell.Queue.{
  clear_composer, has_queued_work, is_slash_command, enqueue_submission, enqueue_on_enter,
  begin_submission, dispatch_host_command, parse_command, enter_on_empty, emit_submit_on_enter,
}
use modeltap.Shell.Pending.{ActiveEntry-of_state}
use modeltap.Shell.Merge.{release_lem}
use modeltap.Shell.Release.{Outbox, release_actions}

-- The message as it waits in the queue, and as it goes out alone.
abbrev pub waiting : ℕ → String → List InputToken → QueuedSubmission
waiting n content tokens = record {
  id = "sub-" <> decimal n;
  text = content;
  tokens = tokens;
  entries = if str_eq (trim_space content) "" then [] else content ∷ [];
}

abbrev pub sent_alone : ℕ → ℕ → String → List InputToken → Submission
sent_alone at n content tokens = record {
  id = "sub-" <> decimal n;
  entries = [];
  text = trim_space content;
  tokens = tokens;
  source = direct;
  requested_at = at;
}

-- What Enter sends and what it leaves queued: while a run streams the message waits; else it goes
-- out, alone or behind everything that waited.
abbrev pub sends : Bool → ℕ → ℕ → String → List InputToken → List QueuedSubmission → List Action
sends true at n content tokens qs = []
sends false at n content tokens [] = submit_turn (sent_alone at (n + 1) content tokens) ∷ []
sends false at n content tokens (q ∷ qs) =
    release_actions at (n + 1 + 1) (q ∷ qs ++ waiting (n + 1) content tokens ∷ [])

abbrev pub leaves :
    Bool → ℕ → String → List InputToken → List QueuedSubmission → List QueuedSubmission
leaves true n content tokens qs = qs ++ waiting (n + 1) content tokens ∷ []
leaves false n content tokens qs = []

slash-nonempty : (c : String) → is_slash_command c ≡ true → str_eq c "" ≡ false
slash-nonempty String.[] h = cc
slash-nonempty (String.◌∷◌ c s) h = elim (Bool-cases (str_eq (String.◌∷◌ c s) "")) [
  | inl e ↦ absurd (cons-ne-nil c s (str_eq_iff _ _ e))
  | inr e ↦ e
]

&&-left : (a b : Bool) → (a && b) ≡ true → a ≡ true
&&-left true b h = refl
&&-left false b h = h

module _ {Area Cmd : Type 0} (ops : Textarea Area) (at : ℕ) where
  abbrev message_of : State Area Cmd → String
  message_of s = trim_space (Textarea.value ops s.input)

  idle_enqueue :
      (content : String) (s : State Area Cmd) (q : QueuedSubmission) (qs : List QueuedSubmission)
      → s.pending_submissions ≡ []
      → s.queued_submissions ≡ q ∷ qs
      → s.streaming ≡ false
      → Outbox
          (enqueue_on_enter ops at content s)
          (s.pending_actions ++ sends false at s.submission_counter content s.input_tokens (q ∷ qs))
          []
  unfolding enqueue_on_enter enqueue_submission
  idle_enqueue content s q qs p e i = ground (
    arith,
    release_lem ops at (clear_composer ops (enqueue_submission content s.input_tokens s)) q
        (qs ++ waiting (s.submission_counter + 1) content s.input_tokens ∷ []) p
        (ap (λ l. l ++ waiting (s.submission_counter + 1) content s.input_tokens ∷ []) e),
  )

  busy_enqueue :
      (content : String) (s : State Area Cmd)
      → s.pending_submissions ≡ []
      → s.streaming ≡ true
      → Outbox
          (enqueue_on_enter ops at content s)
          s.pending_actions
          (s.queued_submissions ++ waiting (s.submission_counter + 1) content s.input_tokens ∷ [])
  unfolding enqueue_on_enter enqueue_submission
  busy_enqueue content s p b = ground arith

  -- The part of `emitSubmitOnEnter` behind the slash test.
  abbrev queue_or_begin : String → State Area Cmd → State Area Cmd
  queue_or_begin content s =
      if s.streaming || has_queued_work s
      then enqueue_on_enter ops at content s
      else begin_submission ops at content [] s.input_tokens direct s

  queue_or_begin-Outbox :
      (content : String) (s : State Area Cmd) (b : Bool) (qs : List QueuedSubmission)
      → s.pending_submissions ≡ []
      → s.streaming ≡ b
      → s.queued_submissions ≡ qs
      → Outbox
          (queue_or_begin content s)
          (s.pending_actions ++ sends b at s.submission_counter content s.input_tokens qs)
          (leaves b s.submission_counter content s.input_tokens qs)
  unfolding begin_submission
  queue_or_begin-Outbox content s true qs p b e =
      ground (arith, busy_enqueue content s p b, append-nil s.pending_actions)
  queue_or_begin-Outbox content s false [] p b e = ground arith
  queue_or_begin-Outbox content s false (q ∷ qs) p b e =
      ground (arith, idle_enqueue content s q qs p e b)

  push_history_keeps :
      (content : String) (s : State Area Cmd)
      → let s' = push_history content s in
        (s'.pending_submissions ≡ s.pending_submissions)
        × (s'.queued_submissions ≡ s.queued_submissions)
        × (s'.pending_actions ≡ s.pending_actions)
        × (s'.submission_counter ≡ s.submission_counter)
        × (s'.input_tokens ≡ s.input_tokens)
        × (s'.streaming ≡ s.streaming)
  unfolding push_history
  push_history_keeps content s = ground arith

  push_history_rows :
      (content : String) (s : State Area Cmd)
      → (push_history content s).transcript_items ≡ s.transcript_items
  unfolding push_history
  push_history_rows content s = ground arith

  -- Enter on a message that is no slash command never loses it. While a run streams, the message
  -- joins the end of the queue and nothing is sent; otherwise one submission goes out with every
  -- queued message and then this one, and the queue is empty. The state must have nothing half
  -- released and the composer a message or a token.
  pub emit_submit-Outbox :
      (s : State Area Cmd)
      → (str_eq (message_of s) "" && is_empty s.input_tokens) ≡ false
      → (is_slash_command (message_of s) && is_empty s.input_tokens) ≡ false
      → s.pending_submissions ≡ []
      → let r = emit_submit_on_enter ops at s in
        (r.0 ≡ true)
        × Outbox r.1
            (s.pending_actions
              ++ sends s.streaming at s.submission_counter
                  (message_of s)
                  s.input_tokens
                  s.queued_submissions)
            (leaves s.streaming s.submission_counter
              (message_of s)
              s.input_tokens
              s.queued_submissions)
  unfolding emit_submit_on_enter
  emit_submit-Outbox s some_message plain p =
      let s₁ = push_history (message_of s) s in
      let kept = push_history_keeps (message_of s) s in
      ground (
        arith,
        kept,
        queue_or_begin-Outbox (message_of s) s₁ s₁.streaming s₁.queued_submissions (kept.0 ∙ p) refl
            refl,
      )

  -- Enter on a slash command, with no token in the composer, runs it at once: one command action
  -- with the whole line goes to the host, also while a run streams, and the queue, the transcript
  -- and the run are left alone.
  pub emit_command-Outbox :
      (s : State Area Cmd)
      → (is_slash_command (message_of s) && is_empty s.input_tokens) ≡ true
      → s.pending_submissions ≡ []
      → let r = emit_submit_on_enter ops at s in
        (r.0 ≡ true)
        × Outbox r.1
            (s.pending_actions ++ run_host_command (parse_command (message_of s)) ∷ [])
            s.queued_submissions
        × (r.1.transcript_items ≡ s.transcript_items)
        × (r.1.streaming ≡ s.streaming)
  unfolding emit_submit_on_enter dispatch_host_command
  emit_command-Outbox s slash p =
      let is_slash = &&-left (is_slash_command (message_of s)) (is_empty s.input_tokens) slash in
      ground (
        arith,
        slash-nonempty (message_of s) is_slash,
        push_history_keeps (message_of s) s,
        push_history_rows (message_of s) s,
      )

  -- Enter that the shell does not consume (an empty composer with nothing to answer or release)
  -- sends nothing and leaves the queue, the transcript and the permissions alone.
  pub emit_unconsumed :
      (s : State Area Cmd)
      → (emit_submit_on_enter ops at s).0 ≡ false
      → let s' = (emit_submit_on_enter ops at s).1 in
        (s'.pending_actions ≡ s.pending_actions)
        × (s'.queued_submissions ≡ s.queued_submissions)
        × (s'.transcript_items ≡ s.transcript_items)
        × (s'.pending_permissions ≡ s.pending_permissions)
        × (s.pending_permissions ≡ [])
  unfolding emit_submit_on_enter enter_on_empty
  emit_unconsumed s h = ground (arith, ActiveEntry-of_state s)
