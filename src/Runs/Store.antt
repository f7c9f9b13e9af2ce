-- ===== src/Runs/Store.antt =====
-- internal/storage/runs.go over the tables of sqlite.go. A table is the list of its rows; a
-- transaction maps the tables to new ones, and an error keeps the old ones (the rollback).
use modeltap.Prelude.{
  ◌≡◌, refl, ◌⊎◌, inl, inr, ℕ, String, Bool, true, false, ◌&&◌, List, [], ◌∷◌, ◌++◌, Option, none,
  some, ◌==◌, any, if◌then◌else◌,
}
use modeltap.Prelude.Text.{str_eq, text_mem}
use modeltap.Runs.Types.{
  Run, RunEvent, RunCheckpoint, Attachment, StoreError, run_not_found, invalid_run_status,
  invalid_run_stage, invalid_workflow_type, constraint, run_status_queued, valid_run_statuses,
  valid_run_stages, valid_workflow_types,
}

-- `sessions` are the identifiers of the rows of the table sessions, which runs refer to.
pub record Db : Type 0 where
  pub sessions : List String
  pub runs : List Run
  pub events : List RunEvent
  pub checkpoints : List RunCheckpoint
  pub attachments : List Attachment

pub data Result {ℓ} (A : Type ℓ) : Type ℓ where
  ok : A → Result A
  err : StoreError → Result A

infixl 5 ◌>>=◌
abbrev pub ◌>>=◌ {ℓ κ} : {A : Type ℓ} {B : Type κ} → Result A → (A → Result B) → Result B
ok a >>= f = f a
err e >>= f = err e

-- `if x == "" { x = d }`, and the same for a zero number, an absent value and a pointer.
abbrev pub or_text : String → String → String
or_text x d = if str_eq x "" then d else x

abbrev pub or_number : ℕ → ℕ → ℕ
or_number x d = if x == 0 then d else x

abbrev pub or_some {ℓ} : {A : Type ℓ} → Option A → A → Option A
or_some none d = some d
or_some (some a) d = some a

abbrev pub get_or {ℓ} : {A : Type ℓ} → Option A → A → A
get_or none d = d
get_or (some a) d = a

abbrev pub or_else {ℓ} : {A : Type ℓ} → Option A → Option A → Option A
or_else none d = d
or_else (some a) d = some a

-- `SELECT … FROM runs WHERE id = ?`.
unfoldable pub find_run : String → List Run → Option Run
find_run id [] = none
find_run id (r ∷ rs) = if str_eq r.id id then some r else find_run id rs

-- `UPDATE runs SET … WHERE id = ?`.
unfoldable pub update_run : String → (Run → Run) → List Run → List Run
update_run id f [] = []
update_run id f (r ∷ rs) =
    if str_eq r.id id then f r ∷ update_run id f rs else r ∷ update_run id f rs

abbrev pub has_key : String → String → String → Run → Bool
has_key user project key r =
    str_eq r.user_id user && (str_eq r.project project && str_eq r.idempotency_key key)

unfoldable pub find_by_key : String → String → String → List Run → Option Run
find_by_key user project key [] = none
find_by_key user project key (r ∷ rs) =
    if has_key user project key r then some r else find_by_key user project key rs

unfoldable pub get_run : String → Db → Result Run
unfolding find_run
get_run id db = elim (find_run id db.runs) [ none ↦ err run_not_found | some r ↦ ok r ]

unfoldable pub get_run_by_idempotency : String → String → String → Db → Result Run
unfolding find_by_key
get_run_by_idempotency user project key db = elim (find_by_key user project key db.runs) [
  | none ↦ err run_not_found
  | some r ↦ ok r
]

abbrev pub has_run : String → List Run → Bool
has_run id rs = elim (find_run id rs) [ none ↦ false | some _ ↦ true ]

abbrev has_parent : Option String → List Run → Bool
has_parent none rs = true
has_parent (some id) rs = has_run id rs

-- The primary key, the unique index and the references of a row of runs.
unfoldable pub insert_run : Run → Db → Result Db
insert_run r db =
    let runs = db.runs ++ r ∷ [] in
    elim (find_run r.id db.runs) [
      | some _ ↦ err constraint
      | none ↦ elim (find_by_key r.user_id r.project r.idempotency_key db.runs) [
        | some _ ↦ err constraint
        | none ↦
            if text_mem r.session_id db.sessions && has_parent r.parent_run_id runs
            then ok (record db { runs = runs })
            else err constraint
      ]
    ]

-- The other tables have a primary key each, and refer to runs.
unfoldable pub insert_run_event : RunEvent → Db → Result Db
insert_run_event e db =
    if any (λ x. str_eq x.run_id e.run_id && x.seq == e.seq) db.events
    then err constraint
    else if has_run e.run_id db.runs
    then ok (record db { events = db.events ++ e ∷ [] })
    else err constraint

unfoldable pub insert_run_checkpoint : RunCheckpoint → Db → Result Db
insert_run_checkpoint cp db =
    if any (λ x. str_eq x.id cp.id) db.checkpoints
    then err constraint
    else if has_run cp.run_id db.runs
    then ok (record db { checkpoints = db.checkpoints ++ cp ∷ [] })
    else err constraint

unfoldable pub insert_attachment : Attachment → Db → Result Db
insert_attachment a db =
    if any (λ x. str_eq x.run_id a.run_id) db.attachments
    then err constraint
    else if has_run a.run_id db.runs
    then ok (record db { attachments = db.attachments ++ a ∷ [] })
    else err constraint

-- `fresh` is the generated identifier.
unfoldable pub normalize_checkpoint_for_append :
    (fresh : String) (now : ℕ) → RunCheckpoint → String → ℕ → RunCheckpoint
normalize_checkpoint_for_append fresh now cp run_id seq = record cp {
  id = or_text cp.id fresh;
  run_id = or_text cp.run_id run_id;
  seq = or_number cp.seq seq;
  payload_json =
      or_some cp.payload_json
        "{\"context\":{},\"artifacts\":{},\"policy\":{},\"workspace\":{},\"memory\":{},\"routing\":{}}";
  schema_version = or_number cp.schema_version 1;
  created_at = or_number cp.created_at now;
}

unfoldable pub normalize_checkpoint_for_create :
    (fresh : String) (now : ℕ) → RunCheckpoint → Run → ℕ → RunCheckpoint
unfolding normalize_checkpoint_for_append
normalize_checkpoint_for_create fresh now cp run seq =
    let c =
      normalize_checkpoint_for_append fresh now (record cp { run_id = or_text cp.run_id run.id })
        run.id seq in
    record c {
      stage = or_text c.stage run.stage;
      status = or_text c.status run.status;
      summary = or_text c.summary run.summary;
    }

-- The checks of `normalizeRunForCreate` on the run with its defaults filled in.
abbrev check_words : Run → Result Run
check_words r =
    if valid_workflow_types r.workflow_type
    then if valid_run_statuses r.status
      then if valid_run_stages r.stage then ok r else err invalid_run_stage
      else err invalid_run_status
    else err invalid_workflow_type

unfoldable pub normalize_run_for_create :
    (fresh_run fresh_trace : String) (now : ℕ) → Run → Result Run
normalize_run_for_create fresh_run fresh_trace now r =
    let created = or_number r.created_at now in
    check_words (record r {
      id = or_text r.id fresh_run;
      trace_id = or_text r.trace_id fresh_trace;
      workflow_type = or_text r.workflow_type "implementation";
      status = or_text r.status run_status_queued;
      stage = or_text r.stage "preflight";
      attachment_state = or_text r.attachment_state "detached";
      schema_version = or_number r.schema_version 1;
      created_at = created;
      updated_at = or_number r.updated_at created;
      last_advanced_at = or_number r.last_advanced_at created;
      initiator_type = or_text r.initiator_type "user";
    })

-- The event that a new run starts with.
unfoldable pub initial_event : RunEvent → Run → RunEvent
initial_event e run = record e {
  type = or_text e.type "run.started";
  stage = or_text e.stage run.stage;
  status = or_text e.status run.status;
  payload_json = or_some e.payload_json "{}";
  payload_schema_version = or_number e.payload_schema_version 1;
  created_at = or_number e.created_at run.created_at;
  run_id = run.id;
  seq = 1;
}

abbrev pub attachment_of : Run → Attachment
attachment_of r = record {
  run_id = r.id;
  state = r.attachment_state;
  attached_connection_id = r.attached_connection_id;
  grace_deadline = r.attachment_grace_deadline;
  updated_at = r.updated_at;
}

-- Generated identifiers and the clock, as one call reads them.
pub record Fresh : Type 0 where
  pub run : String
  pub trace : String
  pub checkpoint : String
  pub key : String
  pub now : ℕ

-- The result is the run as the caller's pointer sees it.
unfoldable pub create_run : Fresh → Run → RunEvent → RunCheckpoint → Db → Result (Run × Db)
unfolding normalize_run_for_create initial_event normalize_checkpoint_for_create insert_run
    insert_attachment insert_run_event insert_run_checkpoint update_run
create_run fresh r₀ initial cp₀ db = do
  run ← normalize_run_for_create fresh.run fresh.trace fresh.now r₀
  let cp = normalize_checkpoint_for_create fresh.checkpoint fresh.now cp₀ run 1
  db₁ ← insert_run run db
  db₂ ← insert_attachment (attachment_of run) db₁
  db₃ ← insert_run_event (initial_event initial run) db₂
  db₄ ← insert_run_checkpoint cp db₃
  let stamp = λ (r : Run). record r {
    last_event_seq = 1;
    last_checkpoint_id = cp.id;
    updated_at = run.updated_at;
  }
  ok (
    record run { last_event_seq = 1; last_checkpoint_id = cp.id },
    record db₄ { runs = update_run run.id stamp db₄.runs },
  )

pub Result-cases {ℓ} :
    {A : Type ℓ} (m : Result A) → ((a : A) × (m ≡ ok a)) ⊎ ((e : StoreError) × (m ≡ err e))
Result-cases (ok a) = inl (a, refl)
Result-cases (err e) = inr (e, refl)
