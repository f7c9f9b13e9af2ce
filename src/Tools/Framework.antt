-- ===== src/Tools/Framework.antt =====
-- internal/harness/tools/framework.go and tracker.go: the registry of tools and the executor.
use modeltap.Prelude.{
  Bool, true, false, not, List, [], ◌∷◌, ◌++◌, Option, none, some, if◌then◌else◌,
}
use modeltap.Prelude.Text.{str_eq, text_mem, lookup, insert, erase}
use Prim.Native.String.{String}
use modeltap.Tools.Json.{Input}
use modeltap.Tools.Git.{RiskLevel, unknown}
use modeltap.Tools.Permission.{
  Outcome, Tool, PermissionDecision, perm_allow, perm_prompt, perm_deny, PermissionEnforcer,
  Library, approve, check,
}

unfoldable pub is_valid_risk : RiskLevel → Bool
is_valid_risk (unknown r) = false
is_valid_risk _ = true

pub record Registry : Type 0 where
  pub tools : List (String × Tool)
  -- In the order of registration.
  pub order : List String

abbrev pub new_registry : Registry
new_registry = record { tools = []; order = [] }

-- `none` is a panic.
unfoldable pub register : Option Tool → Registry → Option Registry
unfolding is_valid_risk
register none r = none
register (some t) r =
    if str_eq t.name ""
    then none
    else if not (is_valid_risk t.risk_level)
    then none
    else elim (lookup t.name r.tools) [
      | some _ ↦ none
      | none ↦ some (record { tools = insert t.name t r.tools; order = r.order ++ t.name ∷ [] })
    ]

unfoldable pub get : String → Registry → Option Tool
get name r = lookup name r.tools

-- The first occurrence goes.
abbrev pub remove_first : String → List String → List String
remove_first name [] = []
remove_first name (n ∷ ns) = if str_eq n name then ns else n ∷ remove_first name ns

unfoldable pub deregister : String → Registry → Bool × Registry
deregister name r = elim (lookup name r.tools) [
  | none ↦ (false, r)
  | some _ ↦ (true, record { tools = erase name r.tools; order = remove_first name r.order })
]

pub record ToolDefinition : Type 0 where
  pub name : String
  pub description : String
  pub output_envelope : String
  pub risk_level : RiskLevel

abbrev pub definition_of : Tool → ToolDefinition
definition_of t = record {
  name = t.name;
  description = t.description;
  output_envelope = t.output_envelope;
  risk_level = t.risk_level;
}

-- `none` is the panic of a method call on a nil tool.
unfoldable pub definitions : List (String × Tool) → List String → Option (List ToolDefinition)
definitions tools [] = some []
definitions tools (name ∷ names) = elim (lookup name tools) [
  | none ↦ none
  | some t ↦ elim (definitions tools names) [ none ↦ none | some ds ↦ some (definition_of t ∷ ds) ]
]

unfoldable pub all : Registry → Option (List ToolDefinition)
unfolding definitions
all r = definitions r.tools r.order

-- The executor; `permissions` may be nil, and so may the callback that asks the user.
pub record Executor : Type 0 where
  pub registry : Registry
  pub permissions : Option PermissionEnforcer
  pub prompt : Option (Tool → Input → Bool)

pub data Executed : Type 0 where
  tool_not_found : String → Executed
  rejected : (reason : String) → Executed
  ran : Outcome → Executed

module _ (lib : Library) where
  abbrev pub ask : Tool → Input → PermissionEnforcer → Executor → Executed × Executor
  ask tool input p e = elim e.prompt [
    | none ↦ (rejected "requires user prompt; no prompt handler", e)
    | some prompt ↦
        if prompt tool input
        then (ran (tool.run input), record e { permissions = some (approve tool.name p) })
        else (rejected "user denied", e)
  ]

  abbrev pub gate :
      Tool → Input → PermissionEnforcer → Executor → PermissionDecision → Executed × Executor
  gate tool input p e perm_deny = (rejected "denied by permission policy", e)
  gate tool input p e perm_prompt = ask tool input p e
  gate tool input p e perm_allow = (ran (tool.run input), e)

  -- `Executor.Execute`.
  unfoldable pub execute_tool : String → Input → Executor → Executed × Executor
  unfolding get
  execute_tool name input e = elim (get name e.registry) [
    | none ↦ (tool_not_found name, e)
    | some tool ↦ elim e.permissions [
      | none ↦ (ran (tool.run input), e)
      | some p ↦ gate tool input p e (check lib (some tool) input p)
    ]
  ]

-- The files that were read; `canonicalize` is path/filepath's `Abs` and `Clean`.
module _ (canonicalize : String → String) where
  unfoldable pub mark_read : String → List String → List String
  mark_read path read = canonicalize path ∷ read

  unfoldable pub has_read : String → List String → Bool
  has_read path read = text_mem (canonicalize path) read
