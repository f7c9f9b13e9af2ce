-- ===== src/Control/Changes.antt =====
-- What a request does to the tables: nothing, one appended event, or one created run.
use modeltap.Prelude.{
  ℕ, ◌≡◌, ◌⊎◌, refl, inl, inr, String, false, ◌&&◌, ◌||◌, List, none, not, arith, Bool-cases,
}
use modeltap.Prelude.Int.{ℤ}
use modeltap.Prelude.Text.{str_eq}
use modeltap.Runs.Types.{
  Run, RunEvent, RunStateUpdate, run_not_found, run_status_waiting_permission,
}
use modeltap.Runs.Store.{Db, ok, Fresh, get_run_by_idempotency, create_run, Result-cases}
use modeltap.Runs.Append.{append_run_event}
use modeltap.Runs.Log.{IsAppend, append_run_event-IsAppend}
use modeltap.Runs.Create.{IsCreate, create_run-IsCreate}
use modeltap.Control.Types.{
  Conn, Server, CreateRunOptions, Session, Request, run_details, run_attach, run_detach, run_cancel,
  run_retry, run_continue, run_fork, run_events, run_resolve_permission, run_heartbeat, JsonValue,
  Answer,
}
use modeltap.Control.Answers.{
  is_terminal_run_status, new_run, key_of, first_event, first_checkpoint, create_run_record,
}
use mathlib.Core.Path.{subst}
use modeltap.Control.Handlers.{
  session_of, fork_options, store_event, handle_run_details, handle_run_attach, handle_run_detach,
  handle_run_cancel, handle_run_retry, handle_run_continue, handle_run_events, handle_run_fork,
  handle_run_resolve_permission, handle_run_heartbeat, handle_granted,
}

-- An update that sets a status is made only to a run that has not ended.
pub data IsChange (run : Run) (db db' : Db) : Type 0 where
  unchanged : db' ≡ db → IsChange run db db'
  appended :
      (u : RunStateUpdate) (n : ℕ)
      → (u.status ≡ none) ⊎ (is_terminal_run_status run.status ≡ false)
      → IsAppend run.id u db n db'
      → IsChange run db db'
  created : (child : Run) → IsCreate child db db' → IsChange run db db'

record Changes (run : Run) (db : Db) (out : Answer × Server) : Type 0 where
  change : IsChange run db out.1.db

nothing : {run : Run} {srv : Server} {answer : Answer} → Changes run srv.db (answer, srv)
nothing = record { change = unchanged refl }

store_event-Changes :
    (fresh : Fresh) (op : String) (run : Run) (e : RunEvent) (u : RunStateUpdate)
    (answer : ℕ → Db → Answer) (srv : Server)
    → (u.status ≡ none) ⊎ (is_terminal_run_status run.status ≡ false)
    → Changes run srv.db (store_event fresh op run.id e u answer srv)
unfolding store_event
store_event-Changes fresh op run e u answer srv allowed =
    elim (Result-cases (append_run_event fresh run.id e u srv.db)) [
      | inr (_, failed) ↦ rw (failed, store_event) (record { change = unchanged refl })
      | inl ((n, db'), stored) ↦
          rw (stored, store_event)
            (record {
              change =
                  appended u n allowed
                    (append_run_event-IsAppend fresh run.id e u srv.db n db' stored);
            })
    ]

handle_run_attach-Changes :
    (conn : Conn) (fresh : Fresh) (seen : ℤ) (run : Run) (srv : Server)
    → Changes run srv.db (handle_run_attach conn fresh seen run srv)
unfolding handle_run_attach
handle_run_attach-Changes conn fresh seen run srv =
    let held =
      str_eq run.attachment_state "attached"
      && (not (str_eq run.attached_connection_id "")
          && not (str_eq run.attached_connection_id conn.id)) in
    elim (Bool-cases (is_terminal_run_status run.status)) [
      | inl ended ↦ rw (ended, handle_run_attach) nothing
      | inr active ↦ elim (Bool-cases held) [
        | inl conflict ↦ rw (active, conflict, handle_run_attach) nothing
        | inr free ↦
            rw (active, free, handle_run_attach)
              (store_event-Changes fresh _ run _ _ _ srv (inl refl))
      ]
    ]

handle_run_detach-Changes :
    (fresh : Fresh) (run : Run) (srv : Server)
    → Changes run srv.db (handle_run_detach fresh run srv)
unfolding handle_run_detach
handle_run_detach-Changes fresh run srv = store_event-Changes fresh _ run _ _ _ srv (inl refl)

handle_run_cancel-Changes :
    (fresh : Fresh) (reason : String) (run : Run) (srv : Server)
    → Changes run srv.db (handle_run_cancel fresh reason run srv)
unfolding handle_run_cancel
handle_run_cancel-Changes fresh reason run srv =
    elim (Bool-cases (is_terminal_run_status run.status)) [
      | inl ended ↦ rw (ended, handle_run_cancel) nothing
      | inr active ↦
          rw (active, handle_run_cancel) (store_event-Changes fresh _ run _ _ _ _ (inr active))
    ]

module _ (marshal : List (String × JsonValue) → String) where
  handle_run_heartbeat-Changes :
      (fresh : Fresh) (host : String) (seen : ℤ) (stage : String) (run : Run) (srv : Server)
      → Changes run srv.db (handle_run_heartbeat marshal fresh host seen stage run srv)
  unfolding handle_run_heartbeat
  handle_run_heartbeat-Changes fresh host seen stage run srv =
      elim (Bool-cases (is_terminal_run_status run.status)) [
        | inl ended ↦ rw (ended, handle_run_heartbeat) nothing
        | inr active ↦
            rw (active, handle_run_heartbeat) (store_event-Changes fresh _ run _ _ _ srv (inl refl))
      ]

  handle_run_resolve_permission-Changes :
      (fresh : Fresh) (request_id decision : String) (run : Run) (srv : Server)
      → Changes run srv.db (handle_run_resolve_permission marshal fresh request_id decision run srv)
  unfolding handle_run_resolve_permission
  handle_run_resolve_permission-Changes fresh request_id decision run srv =
      elim (Bool-cases (is_terminal_run_status run.status)) [
        | inl ended ↦ rw (ended, handle_run_resolve_permission) nothing
        | inr active ↦ elim (Bool-cases (str_eq request_id "" || str_eq decision "")) [
          | inl missing ↦ rw (active, missing, handle_run_resolve_permission) nothing
          | inr complete ↦ elim (Bool-cases (str_eq run.status run_status_waiting_permission)) [
            | inl waiting ↦
                rw (active, complete, waiting, handle_run_resolve_permission)
                  (store_event-Changes fresh _ run _ _ _ srv (inr active))
            | inr other ↦ rw (active, complete, other, handle_run_resolve_permission) nothing
          ]
        ]
      ]

  create_run_record-IsChange :
      (fresh : Fresh) (sess : Session) (opts : CreateRunOptions) (run child : Run)
      (srv srv' : Server)
      → create_run_record marshal fresh sess opts srv ≡ ok (child, srv')
      → IsChange run srv.db srv'.db
  unfolding create_run_record
  create_run_record-IsChange fresh sess opts run child srv srv' h =
      let new = new_run fresh (key_of fresh opts) sess opts in
      elim (Result-cases
        (get_run_by_idempotency sess.user_id sess.project (key_of fresh opts) srv.db)) [
          | inl (existing, found) ↦ unchanged (ground arith)
          | inr (run_not_found, missing) ↦
              elim (Result-cases (
                create_run fresh new (first_event marshal fresh new) (first_checkpoint fresh new)
                  srv.db)) [
                    | inr (_, failed) ↦ ground arith
                    | inl ((c, db'), made) ↦
                        let same : db' ≡ srv'.db = ground arith in
                        subst (λ d. IsChange run srv.db d) same
                          (created c (create_run-IsCreate fresh new _ _ srv.db c db' made))
                  ]
          | inr (e, failed) ↦ ground arith
        ]

  handle_run_fork-Changes :
      (fresh : Fresh) (run : Run) (srv : Server)
      → Changes run srv.db (handle_run_fork marshal fresh run srv)
  unfolding handle_run_fork
  handle_run_fork-Changes fresh run srv =
      elim (Result-cases
        (create_run_record marshal fresh (session_of run) (fork_options fresh run) srv)) [
          | inr (_, failed) ↦ rw (failed, handle_run_fork) nothing
          | inl ((child, srv'), made) ↦
              rw (made, handle_run_fork)
                (record {
                  change =
                      create_run_record-IsChange fresh (session_of run) (fork_options fresh run) run
                        child srv srv' made;
                })
        ]

  pub handle_granted-IsChange :
      (conn : Conn) (fresh : Fresh) (req : Request) (run : Run) (srv : Server)
      → IsChange run srv.db (handle_granted marshal conn fresh req run srv).1.db
  unfolding handle_granted handle_run_details handle_run_retry handle_run_continue handle_run_events
  handle_granted-IsChange conn fresh (run_details _) run srv = unchanged refl
  handle_granted-IsChange conn fresh (run_attach _ seen) run srv =
      (handle_run_attach-Changes conn fresh seen run srv).change
  handle_granted-IsChange conn fresh (run_detach _) run srv =
      (handle_run_detach-Changes fresh run srv).change
  handle_granted-IsChange conn fresh (run_cancel _ reason) run srv =
      (handle_run_cancel-Changes fresh reason run srv).change
  handle_granted-IsChange conn fresh (run_retry _) run srv = unchanged refl
  handle_granted-IsChange conn fresh (run_continue _) run srv = unchanged refl
  handle_granted-IsChange conn fresh (run_fork _) run srv =
      (handle_run_fork-Changes fresh run srv).change
  handle_granted-IsChange conn fresh (run_events _ after limit) run srv = unchanged refl
  handle_granted-IsChange conn fresh (run_resolve_permission _ request decision) run srv =
      (handle_run_resolve_permission-Changes fresh request decision run srv).change
  handle_granted-IsChange conn fresh (run_heartbeat _ host seen stage) run srv =
      (handle_run_heartbeat-Changes fresh host seen stage run srv).change
