-- ===== src/Control/Active.antt =====
-- internal/runtime/run_registry.go: the registry stays small, and its two maps agree.
use modeltap.Prelude.{
  ℕ, suc, ◌≤◌, ◌<◌, ◌≡◌, ◌⊎◌, inl, inr, String, Bool, true, false, List, [], ◌∷◌, some, length, leb,
  if◌then◌else◌, arith, Bool-cases, Option-cases,
}
use modeltap.Prelude.Text.{str_eq, str_eq_iff, lookup, insert, erase, lookup-erase}
use text.Mathlib.TextPositions.{eq_refl}
use modeltap.Control.Types.{ActiveRun, Registry}
use modeltap.Control.Registry.{
  max_tracked_runs, forget_turn, exists_run, drop_old_turn, evict, make_room, register, cancel,
}

length-erase-le : (k : String) (m : List (String × ActiveRun)) → length (erase k m) ≤ length m
length-erase-le k [] = omega arith
length-erase-le k ((j, v) ∷ m) = ground (arith, length-erase-le k m)

length-erase-lt :
    (k : String) (m : List (String × ActiveRun)) (v : ActiveRun)
    → lookup k m ≡ some v
    → length (erase k m) < length m
length-erase-lt k [] v h = ground arith
length-erase-lt k ((j, w) ∷ m) v h = elim (Bool-cases (str_eq j k)) [
  | inl same ↦ ground (arith, length-erase-le k m)
  | inr other ↦ ground (arith, length-erase-lt k m v (ground arith))
]

length-insert :
    (k : String) (v : ActiveRun) (m : List (String × ActiveRun))
    → length (insert k v m) ≡ (if exists_run k m then length m else suc (length m))
length-insert k v [] = ground arith
length-insert k v ((j, w) ∷ m) = ground (arith, length-insert k v m)

same_runs :
    (run_id turn_id : String) (rr : Registry)
    → (drop_old_turn run_id turn_id rr).by_run_id ≡ rr.by_run_id
same_runs run_id turn_id rr = ground arith

-- The number of runs after one is put in its place.
abbrev size_with : String → List (String × ActiveRun) → ℕ
size_with run_id m = if exists_run run_id m then length m else suc (length m)

size_bound :
    (run_id : String) (m : List (String × ActiveRun)) (n : ℕ)
    → length m < n
    → size_with run_id m ≤ n
size_bound run_id m n h = ground arith

evict_smaller :
    (victim : String) (rr : Registry)
    → exists_run victim rr.by_run_id ≡ true
    → length (evict victim rr).by_run_id < length rr.by_run_id
evict_smaller victim rr found = elim (Option-cases (lookup victim rr.by_run_id)) [
  | inl missing ↦ ground arith
  | inr (old, stored) ↦ rw (stored, evict) (length-erase-lt victim rr.by_run_id old stored)
]

room_left :
    (victim run_id : String) (rr : Registry)
    → (leb max_tracked_runs (length rr.by_run_id) ≡ true → exists_run victim rr.by_run_id ≡ true)
    → length rr.by_run_id ≤ max_tracked_runs
    → size_with run_id (make_room victim run_id rr).by_run_id ≤ max_tracked_runs
room_left victim run_id rr found small = elim (Bool-cases (exists_run run_id rr.by_run_id)) [
  | inl known ↦ ground arith
  | inr new ↦ elim (Bool-cases (leb max_tracked_runs (length rr.by_run_id))) [
    | inr room ↦ ground arith
    | inl full ↦
        rw (new, full)
          (size_bound run_id (evict victim rr).by_run_id max_tracked_runs
            (omega (arith, evict_smaller victim rr (found full), small)))
  ]
]

-- Registering a run keeps at most 4096 tracked runs. Where the registry is full already, the run that
-- its range starts at, which is evicted, is one of them.
pub register-size :
    (victim run_id turn_id session_id connection_id : String) (has_cancel : Bool) (rr : Registry)
    → (leb max_tracked_runs (length rr.by_run_id) ≡ true → exists_run victim rr.by_run_id ≡ true)
    → length rr.by_run_id ≤ max_tracked_runs
    → length (register victim run_id turn_id session_id connection_id has_cancel rr).by_run_id
      ≤ max_tracked_runs
unfolding register
register-size victim run_id turn_id session_id connection_id has_cancel rr found small =
    let rr' = drop_old_turn run_id turn_id rr in
    let same = same_runs run_id turn_id rr in
    let found' : leb max_tracked_runs (length rr'.by_run_id) ≡ true
        → exists_run victim rr'.by_run_id ≡ true =
      λ full. rw same (found (rw⁻¹ same full)) in
    let left = room_left victim run_id rr' found' (rw same small) in
    rw
      (length-insert run_id
        (record {
          id = run_id;
          turn_id = turn_id;
          session_id = session_id;
          attached_connection_id = connection_id;
          has_cancel = has_cancel;
        })
        (make_room victim run_id rr').by_run_id)
      left

-- Every turn of the second map leads to a run of the first that has that turn.
abbrev pub AreLinked : List (String × ActiveRun) → List (String × String) → Type 0
AreLinked runs turns =
    (turn run : String)
    → lookup turn turns ≡ some run
    → (a : ActiveRun) × (lookup run runs ≡ some a) × (a.turn_id ≡ turn) × (str_eq turn "" ≡ false)

abbrev pub IsLinked : Registry → Type 0
IsLinked rr = AreLinked rr.by_run_id rr.by_turn_id

pub forget_entry :
    (turn t r : String) (turns : List (String × String))
    → lookup t (forget_turn turn turns) ≡ some r
    → (lookup t turns ≡ some r) × ((str_eq turn t ≡ false) ⊎ (str_eq turn "" ≡ true))
forget_entry turn t r turns h = elim (Bool-cases (str_eq turn "")) [
  | inl blank ↦ (ground arith, inr blank)
  | inr named ↦ elim (Bool-cases (str_eq turn t)) [
    | inl same ↦ ground (arith, lookup-erase turn t turns)
    | inr other ↦ (ground (arith, lookup-erase turn t turns), inl other)
  ]
]

pub drop-AreLinked :
    (run_id : String) (r : ActiveRun) (runs : List (String × ActiveRun))
    (turns : List (String × String))
    → lookup run_id runs ≡ some r
    → AreLinked runs turns
    → AreLinked (erase run_id runs) (forget_turn r.turn_id turns)
drop-AreLinked run_id r runs turns found linked turn run h =
    let (old, kept) = forget_entry r.turn_id turn run turns h in
    let (a, tracked, has, named) = linked turn run old in
    elim (Bool-cases (str_eq run_id run)) [
      | inr other ↦ (a, ground (arith, lookup-erase run_id run runs), has, named)
      | inl same ↦
          let same_id = str_eq_iff run_id run same in
          let same_row : a ≡ r = ground (arith, same_id) in
          let its_turn : r.turn_id ≡ turn = ground arith in
          elim kept [
            | inl differs ↦ ground (arith, eq_refl turn, its_turn)
            | inr blank ↦ ground (arith, its_turn)
          ]
    ]

-- Cancelling keeps every turn of the registry on a tracked run that has that turn.
pub cancel-IsLinked :
    (run_id : String) (rr : Registry) → IsLinked rr → IsLinked (cancel run_id rr).1
unfolding cancel
cancel-IsLinked run_id rr linked = elim (Option-cases (lookup run_id rr.by_run_id)) [
  | inl missing ↦ rw (missing, cancel) linked
  | inr (r, found) ↦ elim (Bool-cases r.has_cancel) [
    | inr idle ↦ rw (found, idle, cancel) linked
    | inl active ↦
        rw (found, active, cancel) (drop-AreLinked run_id r rr.by_run_id rr.by_turn_id found linked)
  ]
]
