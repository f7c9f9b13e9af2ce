-- ===== src/Runs/Dense.antt =====
-- Appending keeps every run's log dense, and always succeeds on an existing run with valid words.
use modeltap.Prelude.{
  ℕ, ◌+◌, ◌≡◌, refl, inl, inr, String, true, false, ◌&&◌, [], ◌∷◌, ◌++◌, some, length-append, any,
  ◌==◌, arith, Bool-cases, Option-cases,
}
use modeltap.Prelude.Text.{str_eq, str_eq_iff}
use text.Mathlib.TextPositions.{eq_refl}
use mathlib.Core.Path.{subst}
use modeltap.Runs.Types.{Run, RunEvent, RunCheckpoint, RunStateUpdate}
use modeltap.Runs.Store.{
  Db, ok, Fresh, find_run, has_run, insert_run_event, or_text, normalize_checkpoint_for_append,
  insert_run_checkpoint,
}
use modeltap.Runs.Append.{
  updated, stamped, check_status, check_stage, save_checkpoint, apply_run_state_update,
  append_run_event,
}
use modeltap.Runs.Log.{
  is_event_of, events_of, IsLogOf, HasLogs, find-update, select-snoc, IsDense-append, fresh_seq,
  IsAppend, append_run_event-IsAppend,
}

module _ {run_id : String} {u : RunStateUpdate} {db : Db} {n : ℕ} {db' : Db}
    (a : IsAppend run_id u db n db') where
  -- The run that is appended to, and its log.
  pub IsAppend-run : find_run run_id db'.runs ≡ some (updated n a.update a.at a.run)
  IsAppend-run = rw (
    a.runs,
    find-update run_id run_id (updated n a.update a.at) db.runs (λ r. refl),
    eq_refl run_id,
    a.found,
  )

  pub IsAppend-events : events_of run_id db' ≡ events_of run_id db ++ a.event ∷ []
  IsAppend-events =
      rw (a.events, select-snoc (is_event_of run_id) db.events a.event, a.event_run, eq_refl run_id)

  -- Every other run, and its log.
  pub IsAppend-other_run :
      (id : String) → str_eq run_id id ≡ false → find_run id db'.runs ≡ find_run id db.runs
  IsAppend-other_run id other =
      rw (a.runs, find-update run_id id (updated n a.update a.at) db.runs (λ r. refl), other)

  pub IsAppend-other_events :
      (id : String) → str_eq run_id id ≡ false → events_of id db' ≡ events_of id db
  IsAppend-other_events id other =
      rw (a.events, select-snoc (is_event_of id) db.events a.event, a.event_run, other)

  IsLogOf-run :
      IsLogOf (find_run run_id db.runs) (events_of run_id db)
      → IsLogOf (find_run run_id db'.runs) (events_of run_id db')
  IsLogOf-run log =
      let log' = rw a.found at log in
      rw (IsAppend-run, IsAppend-events)
        (
          IsDense-append 0 (events_of run_id db) a.event log'.0
              (omega (arith, a.event_seq, a.next, log'.1)),
          omega (arith, length-append (events_of run_id db) (a.event ∷ []), a.next, log'.1),
        )

  pub IsAppend-HasLogs : HasLogs db → HasLogs db'
  IsAppend-HasLogs logs id = elim (Bool-cases (str_eq run_id id)) [
    | inl same ↦
        subst (λ i. IsLogOf (find_run i db'.runs) (events_of i db')) (str_eq_iff run_id id same)
          (IsLogOf-run (logs run_id))
    | inr other ↦ rw (IsAppend-other_run id other, IsAppend-other_events id other) (logs id)
  ]

-- Appending an event keeps every run's log dense: its events are numbered 1, 2, … without a gap up
-- to the run's last sequence number, and no event belongs to a run that does not exist.
pub append_run_event-HasLogs :
    (fresh : Fresh) (run_id : String) (e : RunEvent) (u : RunStateUpdate) (db : Db) (n : ℕ)
    (db' : Db)
    → append_run_event fresh run_id e u db ≡ ok (n, db')
    → HasLogs db
    → HasLogs db'
append_run_event-HasLogs fresh run_id e u db n db' h =
    IsAppend-HasLogs (append_run_event-IsAppend fresh run_id e u db n db' h)

-- The checkpoint that an update brings, if any, has an identifier that no row has, and belongs to
-- a stored run.
abbrev pub HasFreshCheckpoint : Fresh → String → RunStateUpdate → Db → Type 0
HasFreshCheckpoint fresh run_id u db =
    (cp : RunCheckpoint)
    → u.checkpoint ≡ some cp
    → (any (λ x. str_eq x.id (or_text cp.id fresh.checkpoint)) db.checkpoints ≡ false)
      × (has_run (or_text cp.run_id run_id) db.runs ≡ true)

insert_ok :
    (e : RunEvent) (db : Db)
    → any (λ x. str_eq x.run_id e.run_id && x.seq == e.seq) db.events ≡ false
    → has_run e.run_id db.runs ≡ true
    → insert_run_event e db ≡ ok (record db { events = db.events ++ e ∷ [] })
unfolding insert_run_event
insert_ok e db new stored = rw (new, stored, insert_run_event) refl

save_ok :
    (fresh : Fresh) (run_id : String) (seq : ℕ) (u : RunStateUpdate) (db : Db)
    → HasFreshCheckpoint fresh run_id u db
    → (v : RunStateUpdate) × (db' : Db) × (save_checkpoint fresh run_id seq u db ≡ ok (v, db'))
      × (v.status ≡ u.status)
      × (v.stage ≡ u.stage)
      × (db'.runs ≡ db.runs)
unfolding save_checkpoint insert_run_checkpoint normalize_checkpoint_for_append
save_ok fresh run_id seq u db new = elim (Option-cases u.checkpoint) [
  | inl absent ↦ (u, db, rw absent refl, refl, refl, refl)
  | inr (cp, present) ↦
      let cp' = normalize_checkpoint_for_append fresh.checkpoint fresh.now cp run_id seq in
      let ready = new cp present in
      (
        record u { checkpoint = some cp'; last_checkpoint_id = some cp'.id },
        record db { checkpoints = db.checkpoints ++ cp' ∷ [] },
        rw (present, ready.0, ready.1) refl,
        refl,
        refl,
        refl,
      )
]

apply_ok :
    (id : String) (seq : ℕ) (u : RunStateUpdate) (at : ℕ) (db : Db) (r : Run)
    → find_run id db.runs ≡ some r
    → check_status u.status ≡ true
    → check_stage u.stage ≡ true
    → (db' : Db) × (apply_run_state_update id seq u at db ≡ ok db')
unfolding apply_run_state_update
apply_ok id seq u at db r found good_status good_stage =
    rw (good_status, good_stage, found) (_, refl)

steps_ok :
    (fresh : Fresh) (run_id : String) (e : RunEvent) (u : RunStateUpdate) (db : Db) (r : Run)
    (db₁ : Db) (v : RunStateUpdate × Db) (db₃ : Db)
    → find_run run_id db.runs ≡ some r
    → insert_run_event (stamped run_id (r.last_event_seq + 1) fresh.now e) db ≡ ok db₁
    → save_checkpoint fresh run_id (r.last_event_seq + 1) u db₁ ≡ ok v
    → apply_run_state_update run_id
        (r.last_event_seq + 1)
        v.0
        (stamped run_id (r.last_event_seq + 1) fresh.now e).created_at
        v.1
      ≡ ok db₃
    → append_run_event fresh run_id e u db ≡ ok (r.last_event_seq + 1, db₃)
unfolding append_run_event
steps_ok fresh run_id e u db r db₁ v db₃ found inserted saved applied = ground arith

-- Over dense logs an append to a stored run never fails and returns the next number, if the update's
-- status and stage are valid words, and the checkpoint that it brings, if any, belongs to a stored run
-- and has an identifier that no checkpoint has; the generated one counts where it has none.
pub append_run_event-ok :
    (fresh : Fresh) (run_id : String) (e : RunEvent) (u : RunStateUpdate) (db : Db) (r : Run)
    → HasLogs db
    → find_run run_id db.runs ≡ some r
    → check_status u.status ≡ true
    → check_stage u.stage ≡ true
    → HasFreshCheckpoint fresh run_id u db
    → (db' : Db) × (append_run_event fresh run_id e u db ≡ ok (r.last_event_seq + 1, db'))
append_run_event-ok fresh run_id e u db r logs found good_status good_stage new =
    let e' = stamped run_id (r.last_event_seq + 1) fresh.now e in
    let log = rw found at (logs run_id) in
    let inserted =
      insert_ok e' db
        (fresh_seq run_id 0 (r.last_event_seq + 1) db.events log.0 (omega (arith, log.1)))
        (rw (found, has_run) refl) in
    let (v, db₂, saved, same_status, same_stage, same_runs) =
      save_ok fresh run_id e'.seq u (record db { events = db.events ++ e' ∷ [] }) new in
    let (db', applied) =
      apply_ok run_id e'.seq v e'.created_at db₂ r (rw same_runs found) (rw same_status good_status)
        (rw same_stage good_stage) in
    (db', steps_ok fresh run_id e u db r _ _ _ found inserted saved applied)
