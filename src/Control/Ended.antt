-- ===== src/Control/Ended.antt =====
-- What no request can do: reopen an ended run, break a log, or show another user's run.
use modeltap.Prelude.{
  ◌≡◌, ◌≢◌, ◌⊎◌, refl, sym, inl, inr, String, true, false, List, [], ◌∷◌, none, some, arith,
  Bool-cases,
}
use modeltap.Prelude.Text.{str_eq, str_eq_iff}
use mathlib.Core.Path.{subst}
use modeltap.Runs.Types.{Run}
use modeltap.Runs.Store.{Db, Fresh, find_run}
use modeltap.Runs.Log.{HasLogs}
use modeltap.Runs.Dense.{IsAppend-run, IsAppend-other_run, IsAppend-HasLogs}
use modeltap.Runs.Created.{IsCreate-other_run, IsCreate-HasLogs}
use modeltap.Runs.Append.{updated}
use modeltap.Control.Types.{Conn, Server, Request, JsonValue, Answer, session_not_found}
use modeltap.Control.Answers.{is_terminal_run_status, Access, granted, refused, get_authorized_run}
use modeltap.Control.Handlers.{run_id_of, handle}
use modeltap.Control.Changes.{IsChange, unchanged, appended, created, handle_granted-IsChange}

Access-cases : (a : Access) → ((run : Run) × (a ≡ granted run)) ⊎ ((x : Answer) × (a ≡ refused x))
Access-cases (granted run) = inl (run, refl)
Access-cases (refused x) = inr (x, refl)

granted_run :
    (conn : Conn) (id : String) (db : Db) (run : Run)
    → get_authorized_run conn id db ≡ granted run
    → find_run id db.runs ≡ some run
unfolding get_authorized_run
granted_run conn id db run h = ground arith

find_id : (id : String) (rs : List Run) (r : Run) → find_run id rs ≡ some r → r.id ≡ id
unfolding find_run
find_id id [] r h = ground arith
find_id id (x ∷ rs) r h = elim (Bool-cases (str_eq x.id id)) [
  | inl same ↦ ground (arith, str_eq_iff x.id id same)
  | inr other ↦ find_id id rs r (ground arith)
]

IsChange-HasLogs : {run : Run} {db db' : Db} → IsChange run db db' → HasLogs db → HasLogs db'
IsChange-HasLogs (unchanged same) logs = rw same logs
IsChange-HasLogs (appended u n _ a) logs = IsAppend-HasLogs a logs
IsChange-HasLogs (created child c) logs = IsCreate-HasLogs c logs

-- The run is stored and has ended, with the given status.
abbrev pub HasEnded : String → String → Db → Type 0
HasEnded id status db =
    (r : Run) × (find_run id db.runs ≡ some r)
    × (r.status ≡ status)
    × (is_terminal_run_status status ≡ true)

IsChange-HasEnded :
    {run : Run} {db db' : Db} (id status : String)
    → find_run run.id db.runs ≡ some run
    → IsChange run db db'
    → HasEnded id status db
    → HasEnded id status db'
IsChange-HasEnded id status found (unchanged same) ended = rw same ended
IsChange-HasEnded {run} {db} {db'} id status found (appended u n allowed a)
      (r, stored, kept, ended) =
    elim (Bool-cases (str_eq run.id id)) [
      | inr other ↦ (r, rw (IsAppend-other_run a id other) stored, kept, ended)
      | inl same ↦
          let same_id = str_eq_iff run.id id same in
          let same_run : r ≡ run = ground (arith, same_id) in
          let same_row : a.run ≡ run = ground (arith, a.found) in
          let not_set : u.status ≡ none = elim allowed [ inl e ↦ e | inr active ↦ ground arith ] in
          (
            updated n a.update a.at a.run,
            subst (λ i. find_run i db'.runs ≡ some (updated n a.update a.at a.run)) same_id
                (IsAppend-run a),
            rw (a.same_status, not_set, same_row, sym same_run) kept,
            ended,
          )
    ]
IsChange-HasEnded {run} {db} {db'} id status found (created child c) (r, stored, kept, ended) =
    elim (Bool-cases (str_eq child.id id)) [
      | inl same ↦ ground (arith, str_eq_iff child.id id same, c.new)
      | inr other ↦ (r, rw (IsCreate-other_run c id other) stored, kept, ended)
    ]

differs : (s t : String) → s ≢ t → str_eq s t ≡ false
differs s t h = elim (Bool-cases (str_eq s t)) [
  | inl same ↦ elim (h (str_eq_iff s t same)) [ ]
  | inr other ↦ other
]

refused_missing :
    (conn : Conn) (id : String) (db : Db)
    → id ≢ ""
    → find_run id db.runs ≡ none
    → get_authorized_run conn id db ≡ refused (session_not_found "run not found")
unfolding get_authorized_run
refused_missing conn id db named missing =
    rw (differs id "" named, missing, get_authorized_run) refl

refused_other :
    (conn : Conn) (id : String) (db : Db) (run : Run)
    → id ≢ ""
    → find_run id db.runs ≡ some run
    → run.user_id ≢ conn.user_id
    → get_authorized_run conn id db ≡ refused (session_not_found "run not found")
unfolding get_authorized_run
refused_other conn id db run named stored other =
    rw (differs id "" named, stored, differs run.user_id conn.user_id other, get_authorized_run)
      refl

module _ (marshal : List (String × JsonValue) → String) (conn : Conn) (fresh : Fresh)
    (req : Request) (srv : Server) where
  -- No request reopens a run that has ended: whoever asks, about whichever run, the run stays
  -- stored with the status it ended with.
  pub handle-HasEnded :
      (id status : String)
      → HasEnded id status srv.db
      → HasEnded id status (handle marshal conn fresh req srv).1.db
  unfolding handle
  handle-HasEnded id status ended =
      elim (Access-cases (get_authorized_run conn (run_id_of req) srv.db)) [
        | inr (x, denied) ↦ rw (denied, handle) ended
        | inl (run, access) ↦
            let found = granted_run conn (run_id_of req) srv.db run access in
            let same = find_id (run_id_of req) srv.db.runs run found in
            rw (access, handle)
              (IsChange-HasEnded id status
                (subst (λ i. find_run i srv.db.runs ≡ some run) (sym same) found)
                (handle_granted-IsChange marshal conn fresh req run srv) ended)
      ]

  -- Every request keeps every run's log dense.
  pub handle-HasLogs : HasLogs srv.db → HasLogs (handle marshal conn fresh req srv).1.db
  unfolding handle
  handle-HasLogs logs = elim (Access-cases (get_authorized_run conn (run_id_of req) srv.db)) [
    | inr (x, denied) ↦ rw (denied, handle) logs
    | inl (run, access) ↦
        rw (access, handle)
          (IsChange-HasLogs (handle_granted-IsChange marshal conn fresh req run srv) logs)
  ]

  -- To another user a run looks as if it did not exist: each request on it is answered as one on a
  -- missing run, and changes nothing.
  pub handle-other_user :
      (run : Run)
      → run_id_of req ≢ ""
      → find_run (run_id_of req) srv.db.runs ≡ some run
      → run.user_id ≢ conn.user_id
      → (handle marshal conn fresh req srv ≡ (session_not_found "run not found", srv))
        × ((runs : List Run)
            → find_run (run_id_of req) runs ≡ none
            → (handle marshal conn fresh req (record srv { db = record srv.db { runs = runs } })).0
              ≡ session_not_found "run not found")
  unfolding handle
  handle-other_user run named stored other = (
    rw (refused_other conn (run_id_of req) srv.db run named stored other, handle) refl,
    λ runs missing.
        rw
          (
            refused_missing conn (run_id_of req) (record srv.db { runs = runs }) named missing,
            handle,
          )
          refl,
  )
