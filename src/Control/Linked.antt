-- ===== src/Control/Linked.antt =====
-- internal/runtime/run_registry.go: registering and deregistering keep the two maps linked.
use modeltap.Prelude.{
  ◌≡◌, ◌⊎◌, refl, sym, ◌∙◌, inl, inr, String, Bool, true, false, some, length, leb, if◌then◌else◌,
  arith, Bool-cases, Option-cases,
}
use modeltap.Prelude.Text.{str_eq, str_eq_iff, lookup, insert, lookup-insert, lookup-erase}
use text.Mathlib.TextPositions.{eq_refl}
use modeltap.Control.Types.{ActiveRun, Registry}
use modeltap.Control.Registry.{
  max_tracked_runs, exists_run, drop_old_turn, evict, make_room, register, deregister,
}
use modeltap.Control.Active.{AreLinked, IsLinked, forget_entry, drop-AreLinked}

-- Only the turn `turn_id` may lead to the run.
abbrev IsOnlyTurn : String → String → Registry → Type 0
IsOnlyTurn run_id turn_id rr = (t : String) → lookup t rr.by_turn_id ≡ some run_id → t ≡ turn_id

IsLinked-drop_old_turn :
    (run_id turn_id : String) (rr : Registry)
    → IsLinked rr
    → IsLinked (drop_old_turn run_id turn_id rr)
      × IsOnlyTurn run_id turn_id (drop_old_turn run_id turn_id rr)
IsLinked-drop_old_turn run_id turn_id rr linked = elim (Option-cases (lookup run_id rr.by_run_id)) [
  | inl missing ↦
      rw (missing, drop_old_turn)
        (linked, λ t h. let (a, tracked, _, _) = linked t run_id h in ground arith)
  | inr (old, found) ↦ elim (Bool-cases (str_eq old.turn_id turn_id)) [
    | inl same ↦
        rw (found, same, drop_old_turn)
          (
            linked,
            λ t h.
                let (a, tracked, has, _) = linked t run_id h in
                ground (arith, str_eq_iff old.turn_id turn_id same),
          )
    | inr other ↦
        rw (found, other, drop_old_turn)
          (
            λ t r h. linked t r (forget_entry old.turn_id t r rr.by_turn_id h).0,
            λ t h.
                let (before, kept) = forget_entry old.turn_id t run_id rr.by_turn_id h in
                let (a, tracked, has, named) = linked t run_id before in
                let its_turn : old.turn_id ≡ t = ground arith in
                elim kept [
                  | inl differs ↦ ground (arith, eq_refl t, its_turn)
                  | inr blank ↦ ground (arith, its_turn)
                ],
          )
  ]
]

IsLinked-evict :
    (victim run_id turn_id : String) (rr : Registry)
    → IsLinked rr × IsOnlyTurn run_id turn_id rr
    → IsLinked (evict victim rr) × IsOnlyTurn run_id turn_id (evict victim rr)
IsLinked-evict victim run_id turn_id rr (linked, only) =
    elim (Option-cases (lookup victim rr.by_run_id)) [
      | inl missing ↦ rw (missing, evict) (linked, only)
      | inr (old, found) ↦
          rw (found, evict)
            (
              drop-AreLinked victim old rr.by_run_id rr.by_turn_id found linked,
              λ t h. only t (forget_entry old.turn_id t run_id rr.by_turn_id h).0,
            )
    ]

IsLinked-make_room :
    (victim run_id turn_id : String) (rr : Registry)
    → IsLinked rr × IsOnlyTurn run_id turn_id rr
    → IsLinked (make_room victim run_id rr) × IsOnlyTurn run_id turn_id (make_room victim run_id rr)
IsLinked-make_room victim run_id turn_id rr h = elim (Bool-cases (exists_run run_id rr.by_run_id)) [
  | inl known ↦ rw known h
  | inr new ↦ elim (Bool-cases (leb max_tracked_runs (length rr.by_run_id))) [
    | inr room ↦ rw (new, room) h
    | inl full ↦ rw (new, full) (IsLinked-evict victim run_id turn_id rr h)
  ]
]

-- A link from before still holds after the run is put under its new entry.
link_before :
    (run_id turn_id : String) (active : ActiveRun) (rr : Registry) (t r : String)
    → IsLinked rr × IsOnlyTurn run_id turn_id rr
    → lookup t rr.by_turn_id ≡ some r
    → (str_eq turn_id t ≡ false) ⊎ (str_eq turn_id "" ≡ true)
    → (a : ActiveRun) × (lookup r (insert run_id active rr.by_run_id) ≡ some a)
      × (a.turn_id ≡ t)
      × (str_eq t "" ≡ false)
link_before run_id turn_id active rr t r (linked, only) before kept =
    let (a, tracked, has, named) = linked t r before in
    elim (Bool-cases (str_eq run_id r)) [
      | inr other ↦ (a, ground (arith, lookup-insert run_id r active rr.by_run_id), has, named)
      | inl same ↦
          let same_run : lookup t rr.by_turn_id ≡ some run_id =
            ground (arith, str_eq_iff run_id r same) in
          let its_turn = only t same_run in
          elim kept [
            | inl differs ↦ ground (arith, eq_refl t, its_turn)
            | inr blank ↦ ground (arith, its_turn)
          ]
    ]

link-insert :
    (run_id turn_id : String) (active : ActiveRun) (rr : Registry)
    → active.turn_id ≡ turn_id
    → IsLinked rr × IsOnlyTurn run_id turn_id rr
    → AreLinked
        (insert run_id active rr.by_run_id)
        (if str_eq turn_id "" then rr.by_turn_id else insert turn_id run_id rr.by_turn_id)
link-insert run_id turn_id active rr its_turn linked t r h = elim (Bool-cases (str_eq turn_id "")) [
  | inl blank ↦ link_before run_id turn_id active rr t r linked (ground arith) (inr blank)
  | inr named ↦ elim (Bool-cases (str_eq turn_id t)) [
    | inr other ↦
        link_before run_id turn_id active rr t r linked
          (ground (arith, lookup-insert turn_id t run_id rr.by_turn_id)) (inl other)
    | inl same ↦
        let same_turn = str_eq_iff turn_id t same in
        let same_run : run_id ≡ r = ground (arith, lookup-insert turn_id t run_id rr.by_turn_id) in
        (
          active,
          ground (arith, lookup-insert run_id r active rr.by_run_id, same_run, eq_refl run_id),
          its_turn ∙ same_turn,
          ground (arith, same_turn),
        )
  ]
]

-- Registering a run keeps the registry linked, whichever run a full one evicts: every turn leads to
-- a tracked run that has that turn, so also when the run had another turn before, or the turn led to
-- another run.
pub register-IsLinked :
    (victim run_id turn_id session_id connection_id : String) (has_cancel : Bool) (rr : Registry)
    → IsLinked rr
    → IsLinked (register victim run_id turn_id session_id connection_id has_cancel rr)
unfolding register
register-IsLinked victim run_id turn_id session_id connection_id has_cancel rr linked =
    let ready =
      IsLinked-make_room victim run_id turn_id (drop_old_turn run_id turn_id rr)
        (IsLinked-drop_old_turn run_id turn_id rr linked) in
    link-insert run_id turn_id
      (record {
        id = run_id;
        turn_id = turn_id;
        session_id = session_id;
        attached_connection_id = connection_id;
        has_cancel = has_cancel;
      })
      (make_room victim run_id (drop_old_turn run_id turn_id rr)) refl ready

-- Deregistering a run under its own turn keeps the registry linked; so does a run that is not
-- tracked any more.
pub deregister-IsLinked :
    (run_id turn_id : String) (rr : Registry)
    → ((a : ActiveRun) → lookup run_id rr.by_run_id ≡ some a → a.turn_id ≡ turn_id)
    → IsLinked rr
    → IsLinked (deregister run_id turn_id rr)
unfolding deregister
deregister-IsLinked run_id turn_id rr its_turn linked turn run h =
    let (before, kept) = forget_entry turn_id turn run rr.by_turn_id h in
    let (a, tracked, has, named) = linked turn run before in
    elim (Bool-cases (str_eq run_id run)) [
      | inr other ↦ (a, ground (arith, lookup-erase run_id run rr.by_run_id), has, named)
      | inl same ↦
          let same_id = str_eq_iff run_id run same in
          let this : turn_id ≡ turn = sym (its_turn a (ground (arith, same_id))) ∙ has in
          elim kept [
            | inl differs ↦ ground (arith, eq_refl turn, this)
            | inr blank ↦ ground (arith, this)
          ]
    ]
