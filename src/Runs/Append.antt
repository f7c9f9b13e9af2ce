-- ===== src/Runs/Append.antt =====
-- internal/storage/runs.go: appending an event with its state update, and reading the log.
use modeltap.Prelude.{
  ℕ, ◌+◌, String, Bool, true, false, ◌&&◌, List, [], ◌∷◌, Option, none, some, ltb, leb, select,
  take, if◌then◌else◌,
}
use modeltap.Prelude.Int.{ℤ, pos, negsuc, ltb_ℤ}
use modeltap.Prelude.Text.{str_eq}
use modeltap.Runs.Types.{
  Run, RunEvent, RunStateUpdate, Attachment, run_not_found, invalid_run_status, invalid_run_stage,
  valid_run_statuses, valid_run_stages,
}
use modeltap.Runs.Store.{
  Db, Result, ok, err, ◌>>=◌, or_number, or_some, get_or, or_else, Fresh, find_run, update_run,
  insert_run_event, insert_run_checkpoint, normalize_checkpoint_for_append,
}

-- The columns that an update sets.
abbrev pub updated : ℕ → RunStateUpdate → ℕ → Run → Run
updated seq u at r = record r {
  last_event_seq = seq;
  updated_at = at;
  last_advanced_at = at;
  status = get_or u.status r.status;
  stage = get_or u.stage r.stage;
  attachment_state = get_or u.attachment_state r.attachment_state;
  attached_connection_id = get_or u.attached_connection_id r.attached_connection_id;
  attachment_grace_deadline = or_else u.attachment_grace_deadline r.attachment_grace_deadline;
  summary = get_or u.summary r.summary;
  model = get_or u.model r.model;
  provider = get_or u.provider r.provider;
  input_tokens = get_or u.input_tokens r.input_tokens;
  output_tokens = get_or u.output_tokens r.output_tokens;
  last_checkpoint_id = get_or u.last_checkpoint_id r.last_checkpoint_id;
  terminal_at = or_else u.terminal_at r.terminal_at;
}

-- Without any of its three columns the attachment row is not touched.
abbrev touches_attachment : RunStateUpdate → Bool
touches_attachment u = elim u.attachment_state [
  | some _ ↦ true
  | none ↦ elim u.attached_connection_id [
    | some _ ↦ true
    | none ↦ elim u.attachment_grace_deadline [ some _ ↦ true | none ↦ false ]
  ]
]

unfoldable pub update_attachment : String → RunStateUpdate → ℕ → List Attachment → List Attachment
update_attachment id u at [] = []
update_attachment id u at (a ∷ rest) =
    let a' = record a {
      updated_at = at;
      state = get_or u.attachment_state a.state;
      attached_connection_id = get_or u.attached_connection_id a.attached_connection_id;
      grace_deadline = or_else u.attachment_grace_deadline a.grace_deadline;
    } in
    (if str_eq a.run_id id then a' else a) ∷ update_attachment id u at rest

abbrev pub check_status : Option String → Bool
check_status none = true
check_status (some s) = valid_run_statuses s

abbrev pub check_stage : Option String → Bool
check_stage none = true
check_stage (some s) = valid_run_stages s

unfoldable pub apply_run_state_update : String → ℕ → RunStateUpdate → ℕ → Db → Result Db
unfolding find_run update_run update_attachment
apply_run_state_update id seq u at db =
    let db' = record db {
      runs = update_run id (updated seq u at) db.runs;
      attachments =
          if touches_attachment u then update_attachment id u at db.attachments else db.attachments;
    } in
    if check_status u.status
    then if check_stage u.stage
      then elim (find_run id db.runs) [ none ↦ err run_not_found | some _ ↦ ok db' ]
      else err invalid_run_stage
    else err invalid_run_status

-- The event as it is stored: the next sequence number, and defaults for what it leaves open.
abbrev pub stamped : String → ℕ → ℕ → RunEvent → RunEvent
stamped run_id seq now e = record e {
  run_id = run_id;
  seq = seq;
  payload_json = or_some e.payload_json "{}";
  payload_schema_version = or_number e.payload_schema_version 1;
  created_at = or_number e.created_at now;
}

-- The checkpoint that comes with an update, inserted and named in the update.
unfoldable pub save_checkpoint :
    Fresh → String → ℕ → RunStateUpdate → Db → Result (RunStateUpdate × Db)
unfolding normalize_checkpoint_for_append insert_run_checkpoint
save_checkpoint fresh run_id seq u db = elim u.checkpoint [
  | none ↦ ok (u, db)
  | some cp ↦
      let cp' = normalize_checkpoint_for_append fresh.checkpoint fresh.now cp run_id seq in
      insert_run_checkpoint cp' db >>= λ db'.
      ok (record u { checkpoint = some cp'; last_checkpoint_id = some cp'.id }, db')
]

-- The result is the new event's sequence number.
unfoldable pub append_run_event : Fresh → String → RunEvent → RunStateUpdate → Db → Result (ℕ × Db)
append_run_event fresh run_id e u db = elim (find_run run_id db.runs) [
  | none ↦ err run_not_found
  | some r ↦
      let e' = stamped run_id (r.last_event_seq + 1) fresh.now e in
      insert_run_event e' db >>= λ db₁. save_checkpoint fresh run_id e'.seq u db₁ >>= λ v.
      apply_run_state_update run_id e'.seq v.0 e'.created_at v.1 >>= λ db₃. ok (e'.seq, db₃)
]

-- `ORDER BY seq ASC`.
unfoldable pub insert_by_seq : RunEvent → List RunEvent → List RunEvent
insert_by_seq e [] = e ∷ []
insert_by_seq e (x ∷ xs) = if leb e.seq x.seq then e ∷ x ∷ xs else x ∷ insert_by_seq e xs

unfoldable pub sort_by_seq : List RunEvent → List RunEvent
unfolding insert_by_seq
sort_by_seq [] = []
sort_by_seq (e ∷ es) = insert_by_seq e (sort_by_seq es)

-- `WHERE run_id = ? AND seq > ?`.
abbrev pub is_later_event : String → ℤ → RunEvent → Bool
is_later_event run_id after e = str_eq e.run_id run_id && ltb_ℤ after (pos e.seq)

-- A limit that is not in 1 … 500 is 100.
abbrev pub page_limit : ℤ → ℕ
page_limit (negsuc n) = 100
page_limit (pos n) = if leb n 0 then 100 else if ltb 500 n then 100 else n

unfoldable pub list_run_events : String → ℤ → ℤ → Db → List RunEvent
unfolding sort_by_seq
list_run_events run_id after limit db =
    take (page_limit limit) (sort_by_seq (select (is_later_event run_id after) db.events))
