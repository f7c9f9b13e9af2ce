-- ===== src/Control/Registry.antt =====
-- internal/runtime/run_registry.go: the active runs, by run and by turn.
use modeltap.Prelude.{
  ℕ, String, Bool, true, false, List, ◌∷◌, none, some, length, leb, if◌then◌else◌,
}
use modeltap.Prelude.Text.{str_eq, lookup, insert, erase}
use modeltap.Control.Types.{ActiveRun, Registry}

abbrev pub max_tracked_runs : ℕ
max_tracked_runs = 4096

abbrev pub forget_turn : String → List (String × String) → List (String × String)
forget_turn turn_id turns = if str_eq turn_id "" then turns else erase turn_id turns

abbrev pub exists_run : String → List (String × ActiveRun) → Bool
exists_run run_id runs = elim (lookup run_id runs) [ none ↦ false | some _ ↦ true ]

-- A turn that the run had under another identifier is forgotten.
abbrev pub drop_old_turn : String → String → Registry → Registry
drop_old_turn run_id turn_id rr = elim (lookup run_id rr.by_run_id) [
  | none ↦ rr
  | some old ↦
      if str_eq old.turn_id turn_id
      then rr
      else record rr { by_turn_id = forget_turn old.turn_id rr.by_turn_id }
]

-- A map's `range` starts anywhere: `victim` is the key it starts with.
abbrev pub evict : (victim : String) → Registry → Registry
evict victim rr = elim (lookup victim rr.by_run_id) [
  | none ↦ rr
  | some old ↦ record rr {
    by_run_id = erase victim rr.by_run_id;
    by_turn_id = forget_turn old.turn_id rr.by_turn_id;
  }
]

abbrev pub make_room : (victim run_id : String) → Registry → Registry
make_room victim run_id rr =
    if exists_run run_id rr.by_run_id
    then rr
    else if leb max_tracked_runs (length rr.by_run_id)
    then evict victim rr
    else rr

unfoldable pub register :
    (victim run_id turn_id session_id connection_id : String) (has_cancel : Bool)
    → Registry
    → Registry
register victim run_id turn_id session_id connection_id has_cancel rr =
    let rr' = make_room victim run_id (drop_old_turn run_id turn_id rr) in
    let active : ActiveRun = record {
      id = run_id;
      turn_id = turn_id;
      session_id = session_id;
      attached_connection_id = connection_id;
      has_cancel = has_cancel;
    } in
    record rr' {
      by_run_id = insert run_id active rr'.by_run_id;
      by_turn_id =
          if str_eq turn_id "" then rr'.by_turn_id else insert turn_id run_id rr'.by_turn_id;
    }

unfoldable pub cancel : String → Registry → Bool × Registry
cancel run_id rr = elim (lookup run_id rr.by_run_id) [
  | none ↦ (false, rr)
  | some r ↦
      if r.has_cancel
      then (
        true,
        record rr {
          by_run_id = erase run_id rr.by_run_id;
          by_turn_id = forget_turn r.turn_id rr.by_turn_id;
          cancelled = run_id ∷ rr.cancelled;
        },
      )
      else (false, rr)
]

unfoldable pub run_id_for_turn : String → Registry → String
run_id_for_turn turn_id rr = elim (lookup turn_id rr.by_turn_id) [ none ↦ "" | some id ↦ id ]

unfoldable pub deregister : (run_id turn_id : String) → Registry → Registry
deregister run_id turn_id rr = record rr {
  by_run_id = erase run_id rr.by_run_id;
  by_turn_id = forget_turn turn_id rr.by_turn_id;
}
