-- ===== src/Tools/Remembers.antt =====
-- What an approval is worth later: the executor remembers it (internal/harness/tools/framework.go).
use modeltap.Prelude.{
  ◌≡◌, refl, ap, sym, ◌∙◌, ◌⊎◌, true, false, List, [], ◌∷◌, some, inl, inr, Bool-cases,
  Option-cases, arith,
}
use Prim.Native.String.{String}
use mathlib.Core.Path.{subst}
use modeltap.Tools.Json.{Input}
use modeltap.Tools.Permission.{
  Tool, PermissionEnforcer, PermissionDecision, perm_allow, perm_prompt, perm_deny, Library,
  always_prompt, check, approve, is_approved,
}
use modeltap.Tools.Framework.{Executor, ran, execute_tool, get, ask, gate}
use modeltap.Tools.Policy.{
  is_ran, is_approvable, unattended, name-approved, approved-allowed, execute_tool-allowed,
  execute_tool-prompted,
}

-- Calls one after the other, whatever the user answers.
unfoldable pub execute_tools : Library → List (String × Input) → Executor → Executor
unfolding execute_tool
execute_tools lib [] e = e
execute_tools lib ((name, input) ∷ calls) e =
    execute_tools lib calls (execute_tool lib name input e).1

-- A guarded executor that knows a tool and has its approval.
record Remembers (name : String) (tool : Tool) (e : Executor) : Type 0 where
  policy : PermissionEnforcer
  known : get name e.registry ≡ some tool
  guarded : e.permissions ≡ some policy
  approved : is_approved tool.name policy ≡ true

module _ (lib : Library) (name : String) (tool : Tool) where
  approve-keeps :
      (other : String) (q : PermissionEnforcer)
      → is_approved tool.name q ≡ true
      → is_approved tool.name (approve other q) ≡ true
  unfolding is_approved approve
  approve-keeps other q h = ground (arith, h)

  ask-cases :
      (other : Tool) (input : Input) (q : PermissionEnforcer) (e : Executor)
      → ((ask lib other input q e).1 ≡ e)
        ⊎ ((ask lib other input q e).1 ≡ record e { permissions = some (approve other.name q) })
  ask-cases other input q e = elim (Option-cases e.prompt) [
    | inl nobody ↦ inl (ground (arith, nobody))
    | inr (prompt, asks) ↦ elim (Bool-cases (prompt other input)) [
      | inl agrees ↦ inr (ground (arith, asks, agrees))
      | inr refuses ↦ inl (ground (arith, asks, refuses))
    ]
  ]

  gate-Remembers :
      (other : Tool) (input : Input) (e : Executor) (m : Remembers name tool e)
      (d : PermissionDecision)
      → Remembers name tool (gate lib other input m.policy e d).1
  gate-Remembers other input e m perm_deny = m
  gate-Remembers other input e m perm_allow = m
  gate-Remembers other input e m perm_prompt = elim (ask-cases other input m.policy e) [
    | inl same ↦ subst (Remembers name tool) (sym same) m
    | inr more ↦ subst (Remembers name tool) (sym more) (record {
      policy = approve other.name m.policy;
      known = m.known;
      guarded = refl;
      approved = approve-keeps other.name m.policy m.approved;
    })
  ]

  execute_tool-Remembers :
      (n : String) (input : Input) (e : Executor)
      → Remembers name tool e
      → Remembers name tool (execute_tool lib n input e).1
  unfolding execute_tool
  execute_tool-Remembers n input e m = elim (Option-cases (get n e.registry)) [
    | inl missing ↦ rw (execute_tool, missing) m
    | inr (other, found) ↦
        rw (execute_tool, found, m.guarded)
          (gate-Remembers other input e m (check lib (some other) input m.policy))
  ]

  execute_tools-Remembers :
      (calls : List (String × Input)) (e : Executor)
      → Remembers name tool e
      → Remembers name tool (execute_tools lib calls e)
  unfolding execute_tools
  execute_tools-Remembers [] e m = m
  execute_tools-Remembers ((n, input) ∷ calls) e m =
      execute_tools-Remembers calls (execute_tool lib n input e).1
        (execute_tool-Remembers n input e m)

  -- Once the user has agreed to a call of a write or execute tool, and after whatever calls of any
  -- tools come then, a call of that tool runs without asking, whatever its input (for WebFetch:
  -- whatever its host), unless that call always prompts.
  pub execute_tool-remembers :
      (e : Executor) (p : PermissionEnforcer) (input later : Input) (calls : List (String × Input))
      → get name e.registry ≡ some tool
      → e.permissions ≡ some p
      → is_approvable tool.risk_level ≡ true
      → check lib (some tool) input p ≡ perm_prompt
      → is_ran (execute_tool lib name input e).0 ≡ true
      → always_prompt lib tool later ≡ false
      → (execute_tool lib name later
          (unattended (execute_tools lib calls (execute_tool lib name input e).1))).0
        ≡ ran (tool.run later)
  execute_tool-remembers e p input later calls known guarded able prompted ok safe =
      let after = execute_tool-prompted lib name tool e p input known guarded prompted ok in
      let first : Remembers name tool (execute_tool lib name input e).1 = record {
        policy = approve tool.name p;
        known = ap (λ x. get name x.registry) after ∙ known;
        guarded = ap (λ x. x.permissions) after;
        approved = name-approved lib tool input p;
      } in
      let m = execute_tools-Remembers calls (execute_tool lib name input e).1 first in
      execute_tool-allowed lib name tool later
        (unattended (execute_tools lib calls (execute_tool lib name input e).1)) m.policy m.known
        m.guarded (approved-allowed lib tool later m.policy able m.approved safe)
