-- ===== src/Tools/Permission.antt =====
-- internal/harness/tools/permission.go: what runs without a question, and what the user is asked.
use modeltap.Prelude.{
  Bool, true, false, not, ◌&&◌, ◌||◌, List, [], ◌∷◌, Option, none, some, if◌then◌else◌,
}
use modeltap.Prelude.Text.{str_eq, text_mem, join, ◌<>◌}
use Prim.Native.Nat.{Ordering}
use Prim.Native.Char.{code}
use Prim.Native.String
use Prim.Native.String.{String}
use modeltap.Prelude.{◌==◌}
use modeltap.Tools.Json.{Input, text_field, texts_field}
use modeltap.Tools.Dangerous.{is_dangerous, is_dangerous_git}
use modeltap.Tools.Git.{
  RiskLevel, read_only, write, execute, destructive, unknown, is_git_read, snoc,
}

-- The answer of a tool that ran.
pub record ToolExecResult : Type 0 where
  pub status : String
  pub output : String
  pub output_type : String
  pub error : String
  pub reason : String

pub data Outcome : Type 0 where
  result : ToolExecResult → Outcome
  failed : (error : String) → Outcome

pub record Tool : Type 0 where
  pub name : String
  pub description : String
  pub output_envelope : String
  pub risk_level : RiskLevel
  pub run : Input → Outcome

pub data PermissionLevel : Type 0 where
  perm_default perm_accept_edits perm_autonomous : PermissionLevel

pub data PermissionDecision : Type 0 where
  perm_allow perm_prompt perm_deny : PermissionDecision

-- `approved` and `domains` are the keys of the two maps; nothing is ever taken out of them.
pub record PermissionEnforcer : Type 0 where
  pub level : PermissionLevel
  pub approved : List String
  pub domains : List String

abbrev pub new_permission_enforcer : PermissionLevel → PermissionEnforcer
new_permission_enforcer level = record { level = level; approved = []; domains = [] }

-- A parsed URL: `u.Host`, with its port, and `u.Hostname()`.
pub record Url : Type 0 where
  pub host : String
  pub hostname : String

-- net/url's `Parse` and strings' `ToLower`.
pub record Library : Type 0 where
  pub parse_url : String → Option Url
  pub to_lower : String → String

unfoldable pub set_level : PermissionLevel → PermissionEnforcer → PermissionEnforcer
set_level l p = record p { level = l }

unfoldable pub approve : String → PermissionEnforcer → PermissionEnforcer
approve tool_name p = record p { approved = tool_name ∷ p.approved }

unfoldable pub is_approved : String → PermissionEnforcer → Bool
is_approved tool_name p = text_mem tool_name p.approved

abbrev pub tool_name_web_fetch : String
tool_name_web_fetch = "WebFetch"

abbrev pub tool_name_bash : String
tool_name_bash = "Bash"

abbrev pub tool_name_git : String
tool_name_git = "Git"

unfoldable pub git_command_from_input : Input → String
git_command_from_input input = elim (text_field "command" input) [
  | none ↦ ""
  | some command ↦ elim (texts_field "args" input) [
    | none ↦ ""
    | some args ↦
        let combined = join " " args in
        if str_eq command ""
        then combined
        else if str_eq combined ""
        then command
        else command <> (" " <> combined)
  ]
]

-- `strings.Split(s, ".")`.
abbrev pub split_dots_from : String → String → List String
split_dots_from cur String.[] = cur ∷ []
split_dots_from cur (String.◌∷◌ c s) =
    let rest = split_dots_from String.[] s in
    let more = split_dots_from (snoc cur c) s in if code c == b'.' then cur ∷ rest else more

-- `s <= t` of two texts.
abbrev pub text_leb : String → String → Bool
text_leb s t = elim (String.compare s t) [ Ordering.gt ↦ false | _ ↦ true ]

-- The four parts of a private IPv4 address.
abbrev pub is_private : List String → Bool
is_private (a ∷ b ∷ c ∷ d ∷ []) =
    if str_eq a "10"
    then true
    else if str_eq a "169"
    then str_eq b "254"
    else if str_eq a "172"
    then not (str_eq b "") && (text_leb "16" b && text_leb b "31")
    else if str_eq a "192"
    then str_eq b "168"
    else false
is_private _ = false

unfoldable pub is_internal_host : String → Bool
is_internal_host host =
    text_mem host ("localhost" ∷ "127.0.0.1" ∷ "0.0.0.0" ∷ "::1" ∷ [])
    || is_private (split_dots_from "" host)

abbrev pub allow_or_prompt : Bool → PermissionDecision
allow_or_prompt allowed = if allowed then perm_allow else perm_prompt

abbrev pub is_write_level : PermissionLevel → Bool
is_write_level perm_default = false
is_write_level _ = true

abbrev pub is_autonomous : PermissionLevel → Bool
is_autonomous perm_autonomous = true
is_autonomous _ = false

module _ (lib : Library) where
  unfoldable pub approve_domain : String → PermissionEnforcer → PermissionEnforcer
  approve_domain domain p = record p { domains = lib.to_lower domain ∷ p.domains }

  unfoldable pub is_domain_approved : String → PermissionEnforcer → Bool
  is_domain_approved domain p = text_mem (lib.to_lower domain) p.domains

  -- The URL of the input, if it has one that parses.
  abbrev pub url_of : Input → Option Url
  url_of input = elim (text_field "url" input) [
    | none ↦ none
    | some u ↦ if str_eq u "" then none else lib.parse_url u
  ]

  unfoldable pub check_web_fetch_domain : Input → PermissionEnforcer → Bool
  unfolding is_domain_approved
  check_web_fetch_domain input p = elim (url_of input) [
    | none ↦ false
    | some u ↦ is_domain_approved u.host p
  ]

  unfoldable pub is_internal_url : Input → Bool
  is_internal_url input = elim (url_of input) [
    | none ↦ false
    | some u ↦ is_internal_host (lib.to_lower u.hostname)
  ]

  unfoldable pub always_prompt : Tool → Input → Bool
  always_prompt tool input =
      if str_eq tool.name tool_name_bash
      then elim (text_field "command" input) [ none ↦ false | some c ↦ is_dangerous c ]
      else if str_eq tool.name tool_name_git
      then is_dangerous_git (git_command_from_input input)
      else if str_eq tool.name tool_name_web_fetch
      then is_internal_url input
      else false

  abbrev pub check_execute : Tool → Input → PermissionEnforcer → Bool
  check_execute tool input p =
      (str_eq tool.name tool_name_git && is_git_read (git_command_from_input input))
      || ((str_eq tool.name tool_name_web_fetch && check_web_fetch_domain input p)
          || (is_autonomous p.level || is_approved tool.name p))

  abbrev pub check_risk : RiskLevel → Tool → Input → PermissionEnforcer → PermissionDecision
  check_risk read_only tool input p = perm_allow
  check_risk write tool input p =
      allow_or_prompt (is_write_level p.level || is_approved tool.name p)
  check_risk execute tool input p = allow_or_prompt (check_execute tool input p)
  check_risk destructive tool input p = perm_prompt
  check_risk (unknown r) tool input p = perm_prompt

  -- `none` is a nil tool.
  unfoldable pub check : Option Tool → Input → PermissionEnforcer → PermissionDecision
  check none input p = perm_deny
  check (some tool) input p =
      if always_prompt tool input then perm_prompt else check_risk tool.risk_level tool input p
