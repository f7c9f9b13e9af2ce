-- ===== src/Runs/Log.antt =====
-- A run's log is dense: its events are numbered 1, 2, … up to the run's last sequence number.
use modeltap.Prelude.{
  ℕ, ◌+◌, ◌<◌, ◌≡◌, refl, inl, inr, String, Bool, false, ◌&&◌, List, [], ◌∷◌, ◌++◌, Option, none,
  some, length, select, any, ◌==◌, if◌then◌else◌, arith, Bool-cases, Option-cases,
}
use modeltap.Prelude.Text.{str_eq}
use text.Mathlib.TextEquality.{eq_iff}
use modeltap.Runs.Types.{Run, RunEvent, RunStateUpdate}
use modeltap.Runs.Store.{Db, ok, find_run, update_run, insert_run_event, Fresh, Result-cases}
use modeltap.Runs.Append.{
  updated, stamped, save_checkpoint, apply_run_state_update, append_run_event,
}

abbrev pub is_event_of : String → RunEvent → Bool
is_event_of id e = str_eq e.run_id id

abbrev pub events_of : String → Db → List RunEvent
events_of id db = select (is_event_of id) db.events

-- Numbered k + 1, k + 2, ….
abbrev pub IsDense : ℕ → List RunEvent → Type 0
IsDense k [] = Unit {0}
IsDense k (e ∷ es) = (e.seq ≡ k + 1) × IsDense (k + 1) es

abbrev pub IsLogOf : Option Run → List RunEvent → Type 0
IsLogOf none es = es ≡ []
IsLogOf (some r) es = IsDense 0 es × (length es ≡ r.last_event_seq)

abbrev pub HasLogs : Db → Type 0
HasLogs db = (id : String) → IsLogOf (find_run id db.runs) (events_of id db)

pub find-update :
    (id j : String) (f : Run → Run) (rs : List Run)
    → ((r : Run) → (f r).id ≡ r.id)
    → find_run j (update_run id f rs) ≡ (
        if str_eq id j
        then elim (find_run j rs) [ none ↦ none | some r ↦ some (f r) ]
        else find_run j rs)
unfolding find_run update_run
find-update id j f [] h = ground arith
find-update id j f (r ∷ rs) h = ground (
  arith,
  h r,
  find-update id j f rs h,
  eq_iff r.id id,
  eq_iff r.id j,
  eq_iff id j,
  eq_iff (f r).id j,
)

pub select-snoc :
    (p : RunEvent → Bool) (xs : List RunEvent) (e : RunEvent)
    → select p (xs ++ e ∷ []) ≡ (if p e then select p xs ++ e ∷ [] else select p xs)
select-snoc p [] e = refl
select-snoc p (x ∷ xs) e = ground (arith, select-snoc p xs e)

pub IsDense-append :
    (k : ℕ) (es : List RunEvent) (e : RunEvent)
    → IsDense k es
    → e.seq ≡ k + length es + 1
    → IsDense k (es ++ e ∷ [])
IsDense-append k [] e h p = (omega arith, tt)
IsDense-append k (x ∷ es) e h p = (h.0, IsDense-append (k + 1) es e h.1 (omega arith))

-- In a dense log the next number is not taken.
pub fresh_seq :
    (id : String) (k n : ℕ) (xs : List RunEvent)
    → IsDense k (select (is_event_of id) xs)
    → k + length (select (is_event_of id) xs) < n
    → any (λ x. str_eq x.run_id id && x.seq == n) xs ≡ false
fresh_seq id k n [] h p = refl
fresh_seq id k n (x ∷ xs) h p = elim (Bool-cases (is_event_of id x)) [
  | inl e ↦ ground (arith, fresh_seq id (k + 1) n xs (ground arith) (ground arith))
  | inr e ↦ ground (arith, fresh_seq id k n xs (ground arith) (ground arith))
]

pub insert_run_event-ok :
    (e : RunEvent) (db db' : Db)
    → insert_run_event e db ≡ ok db'
    → db' ≡ record db { events = db.events ++ e ∷ [] }
unfolding insert_run_event
insert_run_event-ok e db db' h = ground arith

save_checkpoint-ok :
    (fresh : Fresh) (run_id : String) (seq : ℕ) (u : RunStateUpdate) (db : Db) (v : RunStateUpdate)
    (db' : Db)
    → save_checkpoint fresh run_id seq u db ≡ ok (v, db')
    → (v.status ≡ u.status) × (db'.runs ≡ db.runs) × (db'.events ≡ db.events)
unfolding save_checkpoint
save_checkpoint-ok fresh run_id seq u db v db' h = ground arith

apply_update-ok :
    (id : String) (seq : ℕ) (u : RunStateUpdate) (at : ℕ) (db db' : Db)
    → apply_run_state_update id seq u at db ≡ ok db'
    → (db'.runs ≡ update_run id (updated seq u at) db.runs) × (db'.events ≡ db.events)
unfolding apply_run_state_update
apply_update-ok id seq u at db db' h = ground arith

-- What a successful append does to the runs and the events: the run gets the next number, and its
-- status only if the update sets one.
pub record IsAppend (run_id : String) (u : RunStateUpdate) (db : Db) (n : ℕ) (db' : Db)
    : Type 0 where
  pub run : Run
  pub event : RunEvent
  pub update : RunStateUpdate
  pub at : ℕ
  pub found : find_run run_id db.runs ≡ some run
  pub next : n ≡ run.last_event_seq + 1
  pub event_run : event.run_id ≡ run_id
  pub event_seq : event.seq ≡ n
  pub same_status : update.status ≡ u.status
  pub runs : db'.runs ≡ update_run run_id (updated n update at) db.runs
  pub events : db'.events ≡ db.events ++ event ∷ []

pub append_run_event-IsAppend :
    (fresh : Fresh) (run_id : String) (e : RunEvent) (u : RunStateUpdate) (db : Db) (n : ℕ)
    (db' : Db)
    → append_run_event fresh run_id e u db ≡ ok (n, db')
    → IsAppend run_id u db n db'
unfolding append_run_event
append_run_event-IsAppend fresh run_id e u db n db' h =
    elim (Option-cases (find_run run_id db.runs)) [
      | inl none_found ↦ ground arith
      | inr (r, found) ↦
          let e' = stamped run_id (r.last_event_seq + 1) fresh.now e in
          elim (Result-cases (insert_run_event e' db)) [
            | inr (_, failed) ↦ ground arith
            | inl (db₁, inserted) ↦
                elim (Result-cases (save_checkpoint fresh run_id e'.seq u db₁)) [
                  | inr (_, failed) ↦ ground arith
                  | inl ((v, db₂), saved) ↦
                      elim (Result-cases
                        (apply_run_state_update run_id e'.seq v e'.created_at db₂)) [
                          | inr (_, failed) ↦ ground arith
                          | inl (db₃, applied) ↦
                              let i = insert_run_event-ok e' db db₁ inserted in
                              let c = save_checkpoint-ok fresh run_id e'.seq u db₁ v db₂ saved in
                              let a =
                                apply_update-ok run_id e'.seq v e'.created_at db₂ db₃ applied in
                              record {
                                run = r;
                                event = e';
                                update = v;
                                at = e'.created_at;
                                found = found;
                                next = ground arith;
                                event_run = refl;
                                event_seq = ground arith;
                                same_status = c.0;
                                runs = ground (arith, i, c, a);
                                events = ground (arith, i, c, a);
                              }
                        ]
                ]
          ]
    ]
