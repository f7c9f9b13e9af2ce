-- ===== src/Shell/Permissions.antt =====
-- internal/harnessshell/permissions.go: pending permissions and the choice among them.
use modeltap.Prelude.{
  ℕ, ◌-◌, ◌+◌, zero, suc, String, Bool, true, false, List, [], ◌∷◌, ◌++◌, Option, none, some,
  length, ltb, leb, if◌then◌else◌,
}
use modeltap.Prelude.Int.{ℤ, pos, negsuc, ◌+ℤ◌, pos_part, ltb_ℤ, get_at?, modify_at}
use modeltap.Prelude.Text.{◌<>◌, str_eq, decimal}
use modeltap.Shell.Types.{
  PermissionDecision, approve_once, approve_session, deny, resolve_permission, permission_pending,
}
use modeltap.Shell.State.{State, PendingPermission}

-- `if i < 0 { i = 0 }; if i >= n { i = n - 1 }` for n > 0.
abbrev pub clamp_index : ℕ → ℤ → ℤ
clamp_index n (negsuc k) = pos 0
clamp_index n (pos k) = if leb n k then pos (n - 1) else pos k

-- The position of the first request with an ID, and the list without it.
unfoldable pub remove_request : String → List PendingPermission → Option (List PendingPermission)
remove_request id [] = none
remove_request id (p ∷ ps) =
    let rest = remove_request id ps in
    if str_eq p.request.id id then some ps else elim rest [ none ↦ none | some qs ↦ some (p ∷ qs) ]

unfoldable pub permission_decision_from_action : ℤ → PermissionDecision
permission_decision_from_action (pos zero) = approve_once
permission_decision_from_action (pos (suc zero)) = approve_session
permission_decision_from_action (pos (suc (suc n))) = deny
permission_decision_from_action (negsuc n) = deny

-- `p.SelectedAction += delta`, clamped to the three actions.
abbrev pub select_action : ℤ → PendingPermission → PendingPermission
select_action delta p = record p { selected_action = clamp_index 3 (p.selected_action +ℤ delta) }

-- The index after a removal: 0 for an empty list, and the last entry if it stood behind that.
abbrev pub index_after_removal : ℕ → ℤ → ℤ
index_after_removal n i = if leb n 0 then pos 0 else if ltb_ℤ i (pos n) then i else pos (n - 1)

module _ {Area Cmd : Type 0} where
  -- A method on `*state` takes the state and returns the new one.
  unfoldable pub current_pending_permission :
      State Area Cmd → Option PendingPermission × State Area Cmd
  current_pending_permission s = elim s.pending_permissions [
    | [] ↦ (none, s)
    | p ∷ ps ↦
        let i = clamp_index (length (p ∷ ps)) s.active_permission_index in
        (get_at? (p ∷ ps) i, record s { active_permission_index = i })
  ]

  unfoldable pub move_permission_action : ℤ → State Area Cmd → Bool × State Area Cmd
  unfolding current_pending_permission
  move_permission_action delta s =
      let (p, s') = current_pending_permission s in
      elim p [
        | none ↦ (false, s')
        | some _ ↦ (
          true,
          record s' {
            pending_permissions =
                modify_at s'.pending_permissions s'.active_permission_index (select_action delta);
            status = "Permission action selected";
          },
        )
      ]

  unfoldable pub move_pending_permission : ℤ → State Area Cmd → Bool × State Area Cmd
  move_pending_permission delta s =
      let n = length s.pending_permissions in
      let i = clamp_index n (s.active_permission_index +ℤ delta) in
      if ltb n 2 then (false, s) else (
        true,
        record s {
          active_permission_index = i;
          status = "Pending permission " <> decimal (pos_part i + 1) <> " of " <> decimal n;
        },
      )

  unfoldable pub remove_pending_permission_by_id : String → State Area Cmd → Bool × State Area Cmd
  unfolding remove_request
  remove_pending_permission_by_id id s = elim (remove_request id s.pending_permissions) [
    | none ↦ (false, s)
    | some ps ↦ (
      true,
      record s {
        pending_permissions = ps;
        active_permission_index = index_after_removal (length ps) s.active_permission_index;
      },
    )
  ]

  unfoldable pub resolve_active_permission : PermissionDecision → State Area Cmd → State Area Cmd
  unfolding current_pending_permission
  resolve_active_permission decision s =
      let (p, s') = current_pending_permission s in
      elim p [
        | none ↦ s'
        | some q ↦ record s' {
          pending_actions = s'.pending_actions ++ resolve_permission q.request.id decision ∷ [];
          status = "Resolving permission";
          status_kind = permission_pending;
        }
      ]
