-- ===== src/Runs/Created.antt =====
-- What the tables hold after a run is created.
use modeltap.Prelude.{
  ◌≡◌, refl, sym, inl, inr, String, false, List, [], ◌∷◌, ◌++◌, none, some, if◌then◌else◌, arith,
  Bool-cases, Option-cases,
}
use modeltap.Prelude.Text.{str_eq, str_eq_iff}
use text.Mathlib.TextPositions.{eq_refl}
use mathlib.Core.Path.{subst}
use modeltap.Runs.Types.{Run, RunEvent, RunCheckpoint}
use modeltap.Runs.Store.{Db, ok, Fresh, find_run, create_run}
use modeltap.Runs.Log.{is_event_of, events_of, IsLogOf, HasLogs, find-update, select-snoc}
use modeltap.Runs.Create.{IsCreate, create_run-IsCreate}

pub find-append :
    (id : String) (rs : List Run) (r : Run)
    → find_run id (rs ++ r ∷ [])
      ≡ elim (find_run id rs) [ none ↦ (if str_eq r.id id then some r else none) | some x ↦ some x ]
unfolding find_run
find-append id [] r = refl
find-append id (x ∷ rs) r = ground (arith, find-append id rs r)

module _ {child : Run} {db db' : Db} (c : IsCreate child db db') where
  pub IsCreate-run : find_run child.id db'.runs ≡ some (c.stamp c.inserted)
  IsCreate-run =
      rw
        (
          c.runs,
          find-update child.id child.id c.stamp (db.runs ++ c.inserted ∷ []) c.stamp_id,
          eq_refl child.id,
          find-append child.id db.runs c.inserted,
          c.new,
          c.same_id,
          eq_refl child.id,
        )
        refl

  pub IsCreate-other_run :
      (id : String) → str_eq child.id id ≡ false → find_run id db'.runs ≡ find_run id db.runs
  IsCreate-other_run id other =
      rw
        (
          c.runs,
          find-update child.id id c.stamp (db.runs ++ c.inserted ∷ []) c.stamp_id,
          other,
          find-append id db.runs c.inserted,
        )
        (elim (Option-cases (find_run id db.runs)) [
          | inl e ↦ rw (e, c.same_id, other) refl
          | inr (x, e) ↦ rw e refl
        ])

  pub IsCreate-events :
      (id : String) → str_eq child.id id ≡ false → events_of id db' ≡ events_of id db
  IsCreate-events id other =
      rw (c.events, select-snoc (is_event_of id) db.events c.event, c.event_run, other) refl

  pub IsCreate-new_events : events_of child.id db ≡ [] → events_of child.id db' ≡ c.event ∷ []
  IsCreate-new_events none_yet =
      rw
        (
          c.events,
          select-snoc (is_event_of child.id) db.events c.event,
          c.event_run,
          eq_refl child.id,
          none_yet,
        )
        refl

  IsLogOf-child :
      IsLogOf (find_run child.id db.runs) (events_of child.id db)
      → IsLogOf (find_run child.id db'.runs) (events_of child.id db')
  IsLogOf-child log =
      let none_yet = rw c.new at log in
      rw (IsCreate-run, IsCreate-new_events none_yet)
        ((omega (arith, c.event_seq), tt), sym (c.stamp_seq c.inserted))

  pub IsCreate-HasLogs : HasLogs db → HasLogs db'
  IsCreate-HasLogs logs id = elim (Bool-cases (str_eq child.id id)) [
    | inl same ↦
        subst (λ i. IsLogOf (find_run i db'.runs) (events_of i db')) (str_eq_iff child.id id same)
          (IsLogOf-child (logs child.id))
    | inr other ↦ rw (IsCreate-other_run id other, IsCreate-events id other) (logs id)
  ]

-- Creating a run keeps every run's log dense: the new run's log holds exactly its first event.
pub create_run-HasLogs :
    (fresh : Fresh) (r : Run) (e : RunEvent) (cp : RunCheckpoint) (db : Db) (child : Run) (db' : Db)
    → create_run fresh r e cp db ≡ ok (child, db')
    → HasLogs db
    → HasLogs db'
create_run-HasLogs fresh r e cp db child db' h =
    IsCreate-HasLogs (create_run-IsCreate fresh r e cp db child db' h)
