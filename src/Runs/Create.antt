-- ===== src/Runs/Create.antt =====
-- Creating a run: it is new, and its log holds its first event.
use modeltap.Prelude.{◌≡◌, refl, inl, inr, [], ◌∷◌, ◌++◌, none, arith}
use modeltap.Runs.Types.{Run, RunEvent, RunCheckpoint}
use modeltap.Runs.Store.{
  Db, ok, Fresh, find_run, update_run, insert_run, insert_attachment, insert_run_event,
  insert_run_checkpoint, normalize_run_for_create, normalize_checkpoint_for_create, initial_event,
  attachment_of, create_run, Result-cases,
}
use modeltap.Runs.Log.{insert_run_event-ok}

-- What creating a run does to the runs and the events.
pub record IsCreate (child : Run) (db db' : Db) : Type 0 where
  pub event : RunEvent
  pub inserted : Run
  pub stamp : Run → Run
  pub new : find_run child.id db.runs ≡ none
  pub same_id : inserted.id ≡ child.id
  pub stamp_id : (r : Run) → (stamp r).id ≡ r.id
  pub stamp_status : (r : Run) → (stamp r).status ≡ r.status
  pub stamp_seq : (r : Run) → (stamp r).last_event_seq ≡ 1
  pub event_run : event.run_id ≡ child.id
  pub event_seq : event.seq ≡ 1
  pub runs : db'.runs ≡ update_run child.id stamp (db.runs ++ inserted ∷ [])
  pub events : db'.events ≡ db.events ++ event ∷ []

insert_run-ok :
    (r : Run) (db db' : Db)
    → insert_run r db ≡ ok db'
    → (find_run r.id db.runs ≡ none) × (db'.runs ≡ db.runs ++ r ∷ []) × (db'.events ≡ db.events)
unfolding insert_run
insert_run-ok r db db' h = ground arith

insert_attachment-ok :
    (r : Run) (db db' : Db)
    → insert_attachment (attachment_of r) db ≡ ok db'
    → (db'.runs ≡ db.runs) × (db'.events ≡ db.events)
unfolding insert_attachment
insert_attachment-ok r db db' h = ground arith

insert_checkpoint-ok :
    (cp : RunCheckpoint) (db db' : Db)
    → insert_run_checkpoint cp db ≡ ok db'
    → (db'.runs ≡ db.runs) × (db'.events ≡ db.events)
unfolding insert_run_checkpoint
insert_checkpoint-ok cp db db' h = ground arith

pub create_run-IsCreate :
    (fresh : Fresh) (r : Run) (e : RunEvent) (cp : RunCheckpoint) (db : Db) (child : Run) (db' : Db)
    → create_run fresh r e cp db ≡ ok (child, db')
    → IsCreate child db db'
unfolding create_run initial_event
create_run-IsCreate fresh r e cp db child db' h =
    elim (Result-cases (normalize_run_for_create fresh.run fresh.trace fresh.now r)) [
      | inr (_, failed) ↦ ground arith
      | inl (run, normal) ↦ elim (Result-cases (insert_run run db)) [
        | inr (_, failed) ↦ ground arith
        | inl (db₁, p₁) ↦ elim (Result-cases (insert_attachment (attachment_of run) db₁)) [
          | inr (_, failed) ↦ ground arith
          | inl (db₂, p₂) ↦ elim (Result-cases (insert_run_event (initial_event e run) db₂)) [
            | inr (_, failed) ↦ ground arith
            | inl (db₃, p₃) ↦
                let c = normalize_checkpoint_for_create fresh.checkpoint fresh.now cp run 1 in
                elim (Result-cases (insert_run_checkpoint c db₃)) [
                  | inr (_, failed) ↦ ground arith
                  | inl (db₄, p₄) ↦
                      let i = insert_run-ok run db db₁ p₁ in
                      let a = insert_attachment-ok run db₁ db₂ p₂ in
                      let v = insert_run_event-ok (initial_event e run) db₂ db₃ p₃ in
                      let k = insert_checkpoint-ok c db₃ db₄ p₄ in
                      record {
                        event = initial_event e run;
                        inserted = run;
                        stamp = λ x. record x {
                          last_event_seq = 1;
                          last_checkpoint_id = c.id;
                          updated_at = run.updated_at;
                        };
                        new = ground (arith, i);
                        same_id = ground arith;
                        stamp_id = λ x. refl;
                        stamp_status = λ x. refl;
                        stamp_seq = λ x. refl;
                        event_run = ground arith;
                        event_seq = refl;
                        runs = ground (arith, i, a, v, k);
                        events = ground (arith, i, a, v, k);
                      }
                ]
          ]
        ]
      ]
    ]
