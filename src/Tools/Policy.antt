-- ===== src/Tools/Policy.antt =====
-- What the permission enforcer and the executor promise together.
use modeltap.Prelude.{◌≡◌, refl, ◌≢◌, Bool, true, false, ◌||◌, List, none, some, arith}
use modeltap.Prelude.Text.{text_mem}
use Prim.Native.String.{String}
use text.Mathlib.TextPositions.{eq_refl}
use modeltap.Tools.Json.{Input}
use modeltap.Tools.Git.{RiskLevel, read_only, write, execute, destructive, unknown}
use modeltap.Tools.Permission.{
  Tool, PermissionEnforcer, PermissionLevel, perm_default, perm_accept_edits, perm_autonomous,
  PermissionDecision, perm_allow, perm_prompt, perm_deny, Library, always_prompt, check, check_risk,
  check_execute, approve, is_domain_approved, is_approved, is_write_level, is_autonomous,
  check_web_fetch_domain,
}
use modeltap.Tools.Framework.{
  Executor, Executed, tool_not_found, rejected, ran, execute_tool, get, gate,
}

-- Every key of the first list is in the second.
abbrev pub Within : List String → List String → Type 0
Within xs ys = (k : String) → text_mem k xs ≡ true → text_mem k ys ≡ true

abbrev pub level_leb : PermissionLevel → PermissionLevel → Bool
level_leb perm_default q = true
level_leb perm_accept_edits perm_default = false
level_leb perm_accept_edits q = true
level_leb perm_autonomous perm_autonomous = true
level_leb perm_autonomous q = false

-- The second enforcer grants what the first grants.
pub record AtLeast (p q : PermissionEnforcer) : Type 0 where
  pub levels : level_leb p.level q.level ≡ true
  pub approvals : Within p.approved q.approved
  pub hosts : Within p.domains q.domains

write_level_mono :
    (l m : PermissionLevel)
    → level_leb l m ≡ true
    → is_write_level l ≡ true
    → is_write_level m ≡ true
write_level_mono perm_default m h w = ground arith
write_level_mono perm_accept_edits perm_default h w = ground arith
write_level_mono perm_accept_edits perm_accept_edits h w = refl
write_level_mono perm_accept_edits perm_autonomous h w = refl
write_level_mono perm_autonomous perm_default h w = ground arith
write_level_mono perm_autonomous perm_accept_edits h w = refl
write_level_mono perm_autonomous perm_autonomous h w = refl

autonomous_mono :
    (l m : PermissionLevel) → level_leb l m ≡ true → is_autonomous l ≡ true → is_autonomous m ≡ true
autonomous_mono perm_default m h w = ground arith
autonomous_mono perm_accept_edits m h w = ground arith
autonomous_mono perm_autonomous perm_default h w = ground arith
autonomous_mono perm_autonomous perm_accept_edits h w = ground arith
autonomous_mono perm_autonomous perm_autonomous h w = refl

module _ (lib : Library) (tool : Tool) (input : Input) {p q : PermissionEnforcer}
    (more : AtLeast p q) where
  host_mono : (d : String) → is_domain_approved lib d p ≡ true → is_domain_approved lib d q ≡ true
  unfolding is_domain_approved
  host_mono d = more.hosts (lib.to_lower d)

  domain_mono :
      check_web_fetch_domain lib input p ≡ true → check_web_fetch_domain lib input q ≡ true
  unfolding check_web_fetch_domain
  domain_mono h = grind (arith, host_mono)

  approved_mono : is_approved tool.name p ≡ true → is_approved tool.name q ≡ true
  unfolding is_approved
  approved_mono h = more.approvals tool.name h

  execute_mono : check_execute lib tool input p ≡ true → check_execute lib tool input q ≡ true
  execute_mono h =
      ground (arith, domain_mono, approved_mono, autonomous_mono p.level q.level more.levels)

  risk_mono :
      (r : RiskLevel)
      → check_risk lib r tool input p ≡ perm_allow
      → check_risk lib r tool input q ≡ perm_allow
  risk_mono read_only h = refl
  risk_mono write h = ground (arith, approved_mono, write_level_mono p.level q.level more.levels)
  risk_mono execute h = ground (arith, execute_mono)
  risk_mono destructive h = h
  risk_mono (unknown r) h = h

  -- A call that runs unasked still does once the level is higher or more was approved.
  pub check_monotone :
      check lib (some tool) input p ≡ perm_allow → check lib (some tool) input q ≡ perm_allow
  unfolding check
  check_monotone h = ground (arith, risk_mono tool.risk_level)

abbrev pub is_ran : Executed → Bool
is_ran (ran o) = true
is_ran (rejected r) = false
is_ran (tool_not_found n) = false

abbrev pub is_allowed : PermissionDecision → Bool
is_allowed perm_allow = true
is_allowed perm_prompt = false
is_allowed perm_deny = false

-- The user is asked and agrees.
abbrev pub user_agrees : Executor → Tool → Input → Bool
user_agrees e tool input = elim e.prompt [ none ↦ false | some prompt ↦ prompt tool input ]

-- Nobody can be asked.
abbrev pub unattended : Executor → Executor
unattended e = record e { prompt = none }

module _ (lib : Library) (tool : Tool) (input : Input) (e : Executor) (p : PermissionEnforcer) where
  risk-not_denied : (r : RiskLevel) → check_risk lib r tool input p ≢ perm_deny
  risk-not_denied read_only h = ground arith
  risk-not_denied write h = ground arith
  risk-not_denied execute h = ground arith
  risk-not_denied destructive h = ground arith
  risk-not_denied (unknown r) h = ground arith

  check-not_denied : check lib (some tool) input p ≢ perm_deny
  unfolding check
  check-not_denied h = ground (arith, risk-not_denied tool.risk_level)

  gate-is_ran :
      (d : PermissionDecision)
      → d ≢ perm_deny
      → is_ran (gate lib tool input p e d).0 ≡ (is_allowed d || user_agrees e tool input)
  gate-is_ran perm_allow h = refl
  gate-is_ran perm_prompt h = ground arith
  gate-is_ran perm_deny h = absurd (h refl)

  -- Agreement is remembered under the tool's name.
  gate-prompted :
      is_ran (gate lib tool input p e perm_prompt).0 ≡ true
      → (gate lib tool input p e perm_prompt).1
        ≡ record e { permissions = some (approve tool.name p) }
  gate-prompted h = ground arith

-- The risks that an approval covers.
abbrev pub is_approvable : RiskLevel → Bool
is_approvable write = true
is_approvable execute = true
is_approvable read_only = false
is_approvable destructive = false
is_approvable (unknown r) = false

module _ (lib : Library) (tool : Tool) (input : Input) (p : PermissionEnforcer) where
  pub name-approved : is_approved tool.name (approve tool.name p) ≡ true
  unfolding is_approved approve
  name-approved = rw eq_refl refl

  approved-risk :
      (r : RiskLevel)
      → is_approvable r ≡ true
      → is_approved tool.name p ≡ true
      → check_risk lib r tool input p ≡ perm_allow
  approved-risk write h y = rw y (ground arith)
  approved-risk execute h y = rw y (ground arith)
  approved-risk read_only h y = ground arith
  approved-risk destructive h y = ground arith
  approved-risk (unknown r) h y = ground arith

  pub approved-allowed :
      is_approvable tool.risk_level ≡ true
      → is_approved tool.name p ≡ true
      → always_prompt lib tool input ≡ false
      → check lib (some tool) input p ≡ perm_allow
  unfolding check
  approved-allowed able covered safe = rw safe (approved-risk tool.risk_level able covered)

pub execute_tool-allowed :
    (lib : Library) (name : String) (tool : Tool) (input : Input) (e : Executor)
    (p : PermissionEnforcer)
    → get name e.registry ≡ some tool
    → e.permissions ≡ some p
    → check lib (some tool) input p ≡ perm_allow
    → (execute_tool lib name input e).0 ≡ ran (tool.run input)
unfolding execute_tool
execute_tool-allowed lib name tool input e p known guarded allowed =
    rw (execute_tool, known, guarded, allowed) refl

module _ (lib : Library) (name : String) (tool : Tool) (e : Executor) (p : PermissionEnforcer) where
  -- A tool runs just when the policy allows the call, or the user is asked and agrees.
  pub execute_tool-runs :
      (input : Input)
      → get name e.registry ≡ some tool
      → e.permissions ≡ some p
      → is_ran (execute_tool lib name input e).0
        ≡ (is_allowed (check lib (some tool) input p) || user_agrees e tool input)
  unfolding execute_tool
  execute_tool-runs input known guarded =
      rw (execute_tool, known, guarded)
        (gate-is_ran lib tool input e p (check lib (some tool) input p)
          (check-not_denied lib tool input e p))

  pub execute_tool-prompted :
      (input : Input)
      → get name e.registry ≡ some tool
      → e.permissions ≡ some p
      → check lib (some tool) input p ≡ perm_prompt
      → is_ran (execute_tool lib name input e).0 ≡ true
      → (execute_tool lib name input e).1 ≡ record e { permissions = some (approve tool.name p) }
  unfolding execute_tool
  execute_tool-prompted input known guarded prompted =
      rw (execute_tool, known, guarded, prompted) (gate-prompted lib tool input e p)
