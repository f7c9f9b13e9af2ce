-- ===== src/Control/Handlers.antt =====
-- internal/runtime/run_controls.go: the handlers of the run controls.
use modeltap.Prelude.{
  ℕ, ◌-◌, String, true, false, ◌&&◌, ◌||◌, List, [], ◌∷◌, none, some, if◌then◌else◌, not,
}
use modeltap.Prelude.Int.{ℤ, pos}
use modeltap.Prelude.Text.{str_eq, ◌<>◌}
use modeltap.Runs.Types.{
  Run, RunEvent, RunStateUpdate, run_status_queued, run_status_running,
  run_status_waiting_permission, run_status_cancelled,
}
use modeltap.Runs.Store.{Db, ok, err, Fresh}
use modeltap.Runs.Append.{append_run_event, list_run_events}
use modeltap.Control.Types.{
  Conn, Server, CreateRunOptions, Session, Request, run_details, run_attach, run_detach, run_cancel,
  run_retry, run_continue, run_fork, run_events, run_resolve_permission, run_heartbeat, JsonValue,
  text, number, Answer, invalid_params, internal, details, attached, detached, control, forked,
  events_page, heartbeat,
}
use modeltap.Control.Registry.{cancel}
use modeltap.Control.Answers.{
  is_terminal_run_status, no_update, event_at, checkpoint_at, granted, refused, get_authorized_run,
  get_latest_run_checkpoint, has_more, replay, create_run_record,
}

-- Appends an event and answers; a failed append leaves the tables.
unfoldable pub store_event :
    Fresh
    → (op run_id : String) → RunEvent
    → RunStateUpdate
    → (ℕ → Db → Answer)
    → Server
    → Answer × Server
store_event fresh op run_id e u answer srv = elim (append_run_event fresh run_id e u srv.db) [
  | err failed ↦ (internal op failed, srv)
  | ok (seq, db') ↦ (answer seq db', record srv { db = db' })
]

unfoldable pub handle_run_details : Run → Server → Answer × Server
handle_run_details run srv = (
  details run (get_latest_run_checkpoint run.id srv.db)
      (list_run_events run.id (pos (run.last_event_seq - 25)) (pos 25) srv.db),
  srv,
)

unfoldable pub handle_run_attach : Conn → Fresh → ℤ → Run → Server → Answer × Server
unfolding store_event
handle_run_attach conn fresh last_observed_seq run srv =
    let stored : Answer × Server =
      store_event fresh "attach run" run.id
        (event_at "run.attached" run.stage run.status "" none fresh.now)
        (record no_update {
          attachment_state = some "attached";
          attached_connection_id = some conn.id;
        })
        (λ seq db'.
          attached
            (record run {
              attachment_state = "attached";
              attached_connection_id = conn.id;
              last_event_seq = seq;
            })
            "attached"
            (replay run.id last_observed_seq seq
              (list_run_events run.id last_observed_seq (pos 100) db') db'))
        srv in
    if is_terminal_run_status run.status
    then (invalid_params "cannot attach terminal run", srv)
    else if str_eq run.attachment_state "attached"
        && (not (str_eq run.attached_connection_id "")
            && not (str_eq run.attached_connection_id conn.id))
    then (invalid_params "attachment conflict: run is attached elsewhere", srv)
    else stored

unfoldable pub handle_run_detach : Fresh → Run → Server → Answer × Server
unfolding store_event
handle_run_detach fresh run srv =
    store_event fresh "detach run" run.id
      (event_at "run.detached" run.stage run.status "" none fresh.now)
      (record no_update { attachment_state = some "detached"; attached_connection_id = some "" })
      (λ seq db'. detached run.id "detached") srv

-- The active run is cancelled even when the append fails.
unfoldable pub handle_run_cancel : Fresh → String → Run → Server → Answer × Server
unfolding store_event cancel
handle_run_cancel fresh reason run srv =
    let (cancelled, runs') = cancel run.id srv.runs in
    let stored : Answer × Server =
      store_event fresh "cancel run" run.id
        (event_at "run.cancelled" run.stage run_status_cancelled reason none fresh.now)
        (record no_update {
          status = some run_status_cancelled;
          stage = some run.stage;
          terminal_at = some fresh.now;
          checkpoint = some (checkpoint_at run.stage run_status_cancelled reason "" fresh.now);
        })
        (λ seq db'.
          control run.id true run_status_cancelled
            (if cancelled then "active run cancelled" else "run marked cancelled"))
        (record srv { runs = runs' }) in
    if is_terminal_run_status run.status
    then (control run.id false run.status "run is already terminal", srv)
    else stored

unfoldable pub handle_run_retry : Run → Server → Answer × Server
handle_run_retry run srv =
    (control run.id false run.status "retry is checkpoint-aware but not enabled in v0.3.0", srv)

unfoldable pub handle_run_continue : Run → Server → Answer × Server
handle_run_continue run srv =
    (control run.id false run.status "continue is limited to future checkpointed stages", srv)

unfoldable pub handle_run_events : ℤ → ℤ → Run → Server → Answer × Server
handle_run_events after_seq limit run srv =
    let events = list_run_events run.id after_seq limit srv.db in
    (
      events_page run.last_event_seq (has_more events after_seq run.last_event_seq)
          (replay run.id after_seq run.last_event_seq events srv.db),
      srv,
    )

abbrev pub session_of : Run → Session
session_of parent = record {
  id = parent.session_id;
  user_id = parent.user_id;
  project = parent.project;
}

abbrev pub fork_options : Fresh → Run → CreateRunOptions
fork_options fresh parent = record {
  idempotency_key = "fork:" <> (parent.id <> (":" <> fresh.key));
  workflow_type = parent.workflow_type;
  title = parent.title;
  parent_run_id = parent.id;
  status = run_status_queued;
  attachment_state = "detached";
  attached_connection_id = "";
}

abbrev pub run_id_of : Request → String
run_id_of (run_details id) = id
run_id_of (run_attach id _) = id
run_id_of (run_detach id) = id
run_id_of (run_cancel id _) = id
run_id_of (run_retry id) = id
run_id_of (run_continue id) = id
run_id_of (run_fork id) = id
run_id_of (run_events id _ _) = id
run_id_of (run_resolve_permission id _ _) = id
run_id_of (run_heartbeat id _ _ _) = id

module _ (marshal : List (String × JsonValue) → String) where
  unfoldable pub handle_run_fork : Fresh → Run → Server → Answer × Server
  handle_run_fork fresh parent srv =
      elim (create_run_record marshal fresh (session_of parent) (fork_options fresh parent) srv) [
        | err e ↦ (internal "fork run" e, srv)
        | ok (child, srv') ↦ (forked child, srv')
      ]

  -- One reading of the clock stands for the two of the source.
  unfoldable pub handle_run_resolve_permission :
      Fresh → (request_id decision : String) → Run → Server → Answer × Server
  unfolding store_event
  handle_run_resolve_permission fresh request_id decision run srv =
      let accepted = control run.id true run_status_running "" in
      let stored : Answer × Server =
        store_event fresh "resolve run permission" run.id
          (event_at "run.unblocked" run.stage run_status_running ""
            (some (marshal (("decision", text decision) ∷ ("request_id", text request_id) ∷ [])))
            fresh.now)
          (record no_update {
            status = some run_status_running;
            stage = some run.stage;
            checkpoint = some (checkpoint_at run.stage run_status_running "" "" fresh.now);
          })
          (λ seq db'. accepted) srv in
      if is_terminal_run_status run.status
      then (control run.id false run.status "run is already terminal", srv)
      else if str_eq request_id "" || str_eq decision ""
      then (invalid_params "request_id and decision are required", srv)
      else if str_eq run.status run_status_waiting_permission
      then stored
      else (accepted, srv)

  unfoldable pub handle_run_heartbeat :
      Fresh → (host_fingerprint : String) → ℤ → (stage : String) → Run → Server → Answer × Server
  unfolding store_event
  handle_run_heartbeat fresh host_fingerprint last_observed_seq new_stage run srv =
      let stage = if str_eq new_stage "" then run.stage else new_stage in
      let stored : Answer × Server =
        store_event fresh "heartbeat run" run.id
          (event_at "run.progress" stage run.status ""
            (some (
              marshal (
                ("host_fingerprint", text host_fingerprint)
                ∷ ("last_observed_seq", number last_observed_seq)
                ∷ ("stage", text stage)
                ∷ [])))
            fresh.now)
          no_update (λ seq db'. heartbeat run.id run.status stage seq) srv in
      if is_terminal_run_status run.status
      then (heartbeat run.id run.status run.stage run.last_event_seq, srv)
      else stored

  -- A handler, after `getAuthorizedRun` has granted the run.
  unfoldable pub handle_granted : Conn → Fresh → Request → Run → Server → Answer × Server
  unfolding handle_run_details handle_run_attach handle_run_detach handle_run_cancel
      handle_run_retry handle_run_continue handle_run_events handle_run_fork
      handle_run_resolve_permission handle_run_heartbeat
  handle_granted conn fresh (run_details _) run = handle_run_details run
  handle_granted conn fresh (run_attach _ seen) run = handle_run_attach conn fresh seen run
  handle_granted conn fresh (run_detach _) run = handle_run_detach fresh run
  handle_granted conn fresh (run_cancel _ reason) run = handle_run_cancel fresh reason run
  handle_granted conn fresh (run_retry _) run = handle_run_retry run
  handle_granted conn fresh (run_continue _) run = handle_run_continue run
  handle_granted conn fresh (run_fork _) run = handle_run_fork fresh run
  handle_granted conn fresh (run_events _ after limit) run = handle_run_events after limit run
  handle_granted conn fresh (run_resolve_permission _ request decision) run =
      handle_run_resolve_permission fresh request decision run
  handle_granted conn fresh (run_heartbeat _ host seen stage) run =
      handle_run_heartbeat fresh host seen stage run

  unfoldable pub handle : Conn → Fresh → Request → Server → Answer × Server
  unfolding handle_granted
  handle conn fresh req srv = elim (get_authorized_run conn (run_id_of req) srv.db) [
    | refused answer ↦ (answer, srv)
    | granted run ↦ handle_granted conn fresh req run srv
  ]
