-- ===== src/Host/Branches.antt =====
-- The stream of a branch, from the server's notification to the shell (internal/harness/connection.go,
-- internal/harnesshost).
use modeltap.Prelude.{
  ℕ, ◌≡◌, ◌≢◌, refl, sym, ap, ◌∙◌, String, Bool, true, false, not, ◌&&◌, List, [], ◌∷◌, ◌++◌, none,
  some, if◌then◌else◌, inl, inr, Bool-cases, is_empty, arith,
}
use text.Mathlib.TextEquality.{eq_iff}
use text.Mathlib.TextLemmas.{cons-append, append_cancel_left, append-nil}
use modeltap.Prelude.Text.{◌<>◌, str_eq, str_eq_iff, cons-not_empty}
use modeltap.Shell.Types.{HostEvent, run_started, run_delta}
use modeltap.Host.Messages.{Floats, Notification, branch_started, token_delta}
use modeltap.Host.Bridge.{run_of, Effect, send, dispatch, handle_event}
use modeltap.Host.Projection.{project_runtime_message, branch_run_id}
use modeltap.Host.Adapter.{Adapter, detached_of, is_detached, replay, forward_event, forward_events}
use modeltap.Host.Counts.{detached-insert}

-- The events of the shell that the host makes of the effects of a notification.
module _ {F : Type 0} (fl : Floats F) (byte_prefix : ℕ → String → String) where
  abbrev as_events : List (Effect F) → List HostEvent
  as_events [] = []
  as_events (dispatch call ∷ es) = as_events es
  as_events (send m ∷ es) = elim (project_runtime_message fl byte_prefix m) [
    | none ↦ as_events es
    | some e ↦ e ∷ as_events es
  ]

  unfoldable pub host_events : Bool → Notification F → List HostEvent
  unfolding handle_event project_runtime_message
  host_events wired n = as_events (handle_event fl true wired n)

  unfoldable pub receive :
      {S : Type 0} → (HostEvent → S → S) → Bool → Notification F → Adapter S → Adapter S
  unfolding host_events forward_events
  receive update wired n a = forward_events update (host_events wired n) a

colon-not_empty : (t : String) → str_eq (":" <> t) "" ≡ false
colon-not_empty t = rw (cons-append ":" "" t) (cons-not_empty ":" ("" <> t))

branch_run_id-ne :
    (turn branch : String) → str_eq branch "" ≡ false → branch_run_id turn branch ≢ turn
unfolding branch_run_id
branch_run_id-ne turn branch n e =
    let f : branch_run_id turn branch ≡ turn <> (":" <> branch) = rw n in
    let g : ":" <> branch ≡ "" =
      append_cancel_left turn (":" <> branch) "" (sym f ∙ (e ∙ sym (append-nil turn))) in
    let t : str_eq (":" <> branch) "" ≡ true = (eq_iff (":" <> branch) "").1 g in
    cc (t, colon-not_empty branch)

append-not_empty : (s u : String) → str_eq s "" ≡ false → str_eq (s <> u) "" ≡ false
append-not_empty String.[] u h = cc (h, (eq_iff "" "").1 refl)
append-not_empty (String.◌∷◌ c s) u h = rw (cons-append c s u) (cons-not_empty c (s <> u))

branch_run_id-not_empty :
    (turn branch : String)
    → str_eq turn "" ≡ false
    → str_eq branch "" ≡ false
    → str_eq (branch_run_id turn branch) "" ≡ false
unfolding branch_run_id
branch_run_id-not_empty turn branch t b = rw b (append-not_empty turn (":" <> branch) t)

-- An event always names a run.
run_of-not_empty :
    (turn run : String) → str_eq turn "" ≡ false → str_eq (run_of turn run) "" ≡ false
run_of-not_empty turn run t = ground (arith, t)

-- The turn itself is not the branch's run.
pub str_eq-branch_run_id :
    (turn branch : String)
    → str_eq branch "" ≡ false
    → str_eq turn (branch_run_id turn branch) ≡ false
str_eq-branch_run_id turn branch b = elim (Bool-cases (str_eq turn (branch_run_id turn branch))) [
  | inl e ↦
      absurd (branch_run_id-ne turn branch b (sym (str_eq_iff turn (branch_run_id turn branch) e)))
  | inr n ↦ n
]

module _ {S : Type 0} (update : HostEvent → S → S) where
  -- The start of a run reaches the shell, ahead of the deltas that were kept for it, attaches the run
  -- and leaves the permissions alone.
  forward_started-attached :
      (id run label : String) (a : Adapter S)
      → ((forward_event update (run_started id run label) a).attached_run_id
          ≡ (if str_eq run "" then a.attached_run_id else run))
        × ((forward_event update (run_started id run label) a).pending_permissions
            ≡ a.pending_permissions)
        × ((forward_event update (run_started id run label) a).shell ≡ (
            if str_eq run ""
            then update (run_started id run label) a.shell
            else replay update
                (detached_of run a.detached_transcripts)
                (update (run_started id run label) a.shell)))
  unfolding forward_event replay
  forward_started-attached id run label a =
      elim (Bool-cases
        (not (str_eq run "") && not (is_empty (detached_of run a.detached_transcripts)))) [
          | inl y ↦ rw y (refl, refl, ground (arith, y))
          | inr n ↦ rw n (refl, refl, ground (arith, n))
        ]

  -- A delta of a run that is not attached stays with the adapter.
  forward_delta-kept :
      (run text : String) (a : Adapter S)
      → a.pending_permissions ≡ []
      → is_detached run a.attached_run_id ≡ true
      → ((forward_event update (run_delta run text) a).shell ≡ a.shell)
        × (detached_of run (forward_event update (run_delta run text) a).detached_transcripts
            ≡ detached_of run a.detached_transcripts ++ record { run_id = run; delta = text } ∷ [])
  unfolding forward_event
  forward_delta-kept run text a p d =
      let q : not (is_empty a.pending_permissions) ≡ false = ap (λ l. not (is_empty l)) p in
      rw (q, d)
        (refl, detached-insert run run _ a.detached_transcripts ∙ rw ((eq_iff run run).1 refl))

-- A branch of a turn starts, with no permission pending, and a delta of the branch follows whose run ID,
-- or turn ID where it has none, is not the branch's own. The start goes to the shell as a run of the
-- branch's own, with the deltas that were kept for it behind, but the delta is taken for one of the
-- run that it names and stays with the adapter; the shell does not see it.
pub receive-branch_delta :
    {F S : Type 0} (fl : Floats F) (byte_prefix : ℕ → String → String) (update : HostEvent → S → S)
    (wired : Bool) (turn branch model provider run text : String) (a : Adapter S)
    → str_eq turn "" ≡ false
    → str_eq branch "" ≡ false
    → str_eq (run_of turn run) (branch_run_id turn branch) ≡ false
    → a.pending_permissions ≡ []
    → let own : String = branch_run_id turn branch in
      let started : Adapter S =
        receive fl byte_prefix update wired
          (branch_started (some (turn, branch, model, provider)))
          a in
      let after : Adapter S =
        receive fl byte_prefix update wired
          (token_delta (some (turn, run, branch, text)))
          started in
      (started.shell
        ≡ replay update
            (detached_of own a.detached_transcripts)
            (update (run_started turn own model) a.shell))
      × (started.attached_run_id ≡ own)
      × (after.shell ≡ started.shell)
      × (detached_of (run_of turn run) after.detached_transcripts
          ≡ detached_of (run_of turn run) started.detached_transcripts
            ++ record { run_id = run_of turn run; delta = text } ∷ [])
unfolding receive
receive-branch_delta fl byte_prefix update wired turn branch model provider run text a t b o p =
    let own = branch_run_id turn branch in
    let s = forward_started-attached update turn own model a in
    let named : str_eq own "" ≡ false = branch_run_id-not_empty turn branch t b in
    let on_branch : (forward_event update (run_started turn own model) a).attached_run_id ≡ own =
      s.0 ∙ rw named in
    let kept =
      forward_delta-kept update (run_of turn run) text
        (forward_event update (run_started turn own model) a) (s.1 ∙ p)
        (rw (on_branch, run_of-not_empty turn run t, named, o)) in
    (s.2 ∙ rw named, on_branch, kept.0, kept.1)
