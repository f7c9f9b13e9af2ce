-- ===== src/Models/Tests.antt =====
-- Two endpoints, a catalog, and switches on a session.
use modeltap.Prelude.{◌≡◌, refl, String, true, false, ◌||◌, [], ◌∷◌, map, none, some, if◌then◌else◌}
use modeltap.Prelude.Text.{str_eq}
use modeltap.Tools.Json.{text, arr, nil, cons}
use modeltap.Models.Types.{ModelInfo, ProviderEndpoint}
use modeltap.Models.Registry.{
  ModelRegistry, new_model_registry, rebuild, get_model, all_models, discovered_entry,
}
use modeltap.Models.Routing.{Tree, resolve, resolve_for_turn}
use modeltap.Models.Precedence.{
  get_model-rebuild, or_else, manual_model, discovered_model, builtin_model,
}
use modeltap.Models.Switch.{
  Session, get_session, switched, ActiveSession, Server, ModelSwitch, handle_model_switch,
  override_of, is_known, handle_model_switch-routes,
}

abbrev cloud : ProviderEndpoint
cloud = record {
  name = "cloud";
  type = "anthropic";
  discover = false;
  status = "ready";
  models = [];
}

abbrev local : ProviderEndpoint
local = record {
  name = "local";
  type = "ollama";
  discover = true;
  status = "";
  models = "qwen" ∷ "opus" ∷ [];
}

abbrev model_named : String → ModelInfo
model_named name = (discovered_entry cloud name).info

abbrev a_registry : ModelRegistry
a_registry =
    new_model_registry (some (cloud ∷ local ∷ []))
      (("anthropic", model_named "opus" ∷ model_named "haiku" ∷ []) ∷ [])

names_sorted : map (λ m. m.name) (all_models a_registry) ≡ "haiku" ∷ "opus" ∷ "qwen" ∷ []
unfolding all_models new_model_registry
names_sorted = refl

get_model-rebuild_example :
    get_model "opus" (rebuild a_registry)
    ≡ or_else (manual_model (cloud ∷ local ∷ []) [] "opus") (
        or_else
          (discovered_model (cloud ∷ local ∷ []) "opus")
          (builtin_model (cloud ∷ local ∷ []) a_registry.builtins "opus"))
unfolding new_model_registry
get_model-rebuild_example = get_model-rebuild a_registry (cloud ∷ local ∷ []) "opus" refl

abbrev a_tree : Tree
a_tree =
    ("default", text "opus")
    ∷ ("coding.default", arr (cons (text "opus") (cons (text "haiku") nil)))
    ∷ []

sibling : resolve "coding.review" a_tree ≡ some ("opus" ∷ "haiku" ∷ [])
unfolding resolve
sibling = refl

abbrev a_session : ActiveSession
a_session = record { id = "s1"; model_override = "" }

abbrev a_server : Server
a_server = record {
  sessions = record { id = "s1"; user_id = "ada"; model_override = none } ∷ [];
  active = ("s1", a_session) ∷ [];
  models = some a_registry;
  routing = a_tree;
}

abbrev to_qwen : ModelSwitch
to_qwen = record { session_id = "s1"; model = "qwen" }

handle_model_switch-routes_example :
    resolve_for_turn
        (override_of "s1" (handle_model_switch "ada" to_qwen a_server).1)
        "build"
        a_tree
      ≡ (if str_eq "qwen" "auto" then resolve_for_turn "" "build" a_tree else ("qwen" ∷ [], false))
    × (str_eq "qwen" "auto" || is_known "qwen" a_server.models) ≡ true
    × ((sess : Session) × get_session "s1" a_server.sessions ≡ some sess
        × get_session "s1" (handle_model_switch "ada" to_qwen a_server).1.sessions
          ≡ some (switched "ada" to_qwen a_server sess))
unfolding handle_model_switch get_model new_model_registry
handle_model_switch-routes_example =
    handle_model_switch-routes "ada" to_qwen a_server a_session "build" refl refl
