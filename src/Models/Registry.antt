-- ===== src/Models/Registry.antt =====
-- internal/runtime/registry.go: the catalog of models, rebuilt from its three sources. A range over a
-- map takes its keys in an order that Go leaves open; here the last key comes first.
use modeltap.Prelude.{
  String, Bool, true, false, List, [], ◌∷◌, ◌++◌, Option, none, some, map, select, if◌then◌else◌,
}
use modeltap.Prelude.Text.{str_eq, lookup, insert}
use modeltap.Models.Types.{
  ModelInfo, builtin, discovered, manual, ModelEntry, ModelOverrideConfig, ProviderEndpoint,
}
use Prim.Native.Nat.{Ordering}
use Prim.Native.String

abbrev pub provider_status_ready : String
provider_status_ready = "ready"

-- An empty status counts as unavailable.
abbrev pub is_ready : ProviderEndpoint → Bool
is_ready ep = str_eq ep.status provider_status_ready

-- `ProviderRegistry.Get`.
unfoldable pub get_endpoint : String → List ProviderEndpoint → Option ProviderEndpoint
get_endpoint name [] = none
get_endpoint name (ep ∷ eps) = if str_eq ep.name name then some ep else get_endpoint name eps

-- The endpoints of a ProviderRegistry in the order of registration; `none` is a nil registry.
pub record ModelRegistry : Type 0 where
  pub models : List (String × ModelEntry)
  pub providers : Option (List ProviderEndpoint)
  pub builtins : List (String × List ModelInfo)
  pub manual_overrides : List (String × ModelOverrideConfig)

-- The first endpoint of a type.
unfoldable pub first_of_type : String → List ProviderEndpoint → Option ProviderEndpoint
first_of_type t [] = none
first_of_type t (ep ∷ eps) = if str_eq ep.type t then some ep else first_of_type t eps

abbrev pub builtin_entry : ProviderEndpoint → ModelInfo → ModelEntry
builtin_entry ep m = record {
  info = m;
  provider = ep.name;
  source = builtin;
  available = is_ready ep;
}

unfoldable pub add_builtins :
    ProviderEndpoint → List ModelInfo → List (String × ModelEntry) → List (String × ModelEntry)
add_builtins ep [] models = models
add_builtins ep (m ∷ ms) models = add_builtins ep ms (insert m.name (builtin_entry ep m) models)

unfoldable pub builtin_pass :
    List ProviderEndpoint → List (String × List ModelInfo) → List (String × ModelEntry)
unfolding first_of_type add_builtins
builtin_pass eps [] = []
builtin_pass eps ((t, ms) ∷ rest) =
    let before = builtin_pass eps rest in
    elim (first_of_type t eps) [ none ↦ before | some ep ↦ add_builtins ep ms before ]

abbrev pub discovered_entry : ProviderEndpoint → String → ModelEntry
discovered_entry ep name = record {
  info = record {
    name = name;
    provider = ep.name;
    roles = [];
    capabilities = [];
    context_window = 0;
    cost_per_1k_input = 0;
    cost_per_1k_output = 0;
    description = "";
    status = "";
    access = "";
  };
  provider = ep.name;
  source = discovered;
  available = is_ready ep;
}

unfoldable pub add_discovered :
    ProviderEndpoint → List String → List (String × ModelEntry) → List (String × ModelEntry)
add_discovered ep [] models = models
add_discovered ep (name ∷ names) models =
    add_discovered ep names (insert name (discovered_entry ep name) models)

unfoldable pub discovered_pass :
    List ProviderEndpoint → List (String × ModelEntry) → List (String × ModelEntry)
unfolding add_discovered
discovered_pass [] models = models
discovered_pass (ep ∷ eps) models =
    discovered_pass eps (if ep.discover then add_discovered ep ep.models models else models)

abbrev pub is_available : Option ProviderEndpoint → Bool
is_available none = false
is_available (some ep) = is_ready ep

abbrev pub manual_entry : List ProviderEndpoint → String → ModelOverrideConfig → ModelEntry
manual_entry eps name ov = record {
  info = record {
    name = name;
    provider = ov.provider;
    roles = [];
    capabilities = ov.capabilities;
    context_window = ov.context_window;
    cost_per_1k_input = 0;
    cost_per_1k_output = 0;
    description = ov.description;
    status = "";
    access = "";
  };
  provider = ov.provider;
  source = manual;
  available = is_available (get_endpoint ov.provider eps);
}

unfoldable pub manual_pass :
    List ProviderEndpoint
    → List (String × ModelOverrideConfig)
    → List (String × ModelEntry)
    → List (String × ModelEntry)
manual_pass eps [] models = models
manual_pass eps ((name, ov) ∷ rest) models =
    insert name (manual_entry eps name ov) (manual_pass eps rest models)

unfoldable pub rebuild : ModelRegistry → ModelRegistry
unfolding builtin_pass discovered_pass manual_pass
rebuild r = elim r.providers [
  | none ↦ record r { models = [] }
  | some eps ↦ record r {
    models = manual_pass eps r.manual_overrides (discovered_pass eps (builtin_pass eps r.builtins));
  }
]

unfoldable pub new_model_registry :
    Option (List ProviderEndpoint) → List (String × List ModelInfo) → ModelRegistry
unfolding rebuild
new_model_registry providers builtins =
    rebuild
      (record { models = []; providers = providers; builtins = builtins; manual_overrides = [] })

unfoldable pub set_manual : List (String × ModelOverrideConfig) → ModelRegistry → ModelRegistry
unfolding rebuild
set_manual overrides r = rebuild (record r { manual_overrides = overrides })

-- The endpoints are shared with the health checks, which change their status and models.
unfoldable pub refresh : Option (List ProviderEndpoint) → ModelRegistry → ModelRegistry
unfolding rebuild
refresh providers r = rebuild (record r { providers = providers })

unfoldable pub get_model : String → ModelRegistry → Option ModelEntry
get_model name r = lookup name r.models

abbrev pub has_model : String → ModelRegistry → Bool
has_model name r = elim (get_model name r) [ none ↦ false | some e ↦ true ]

-- `s > t` of two texts.
abbrev pub text_gtb : String → String → Bool
text_gtb s t = elim (String.compare s t) [ Ordering.gt ↦ true | _ ↦ false ]

-- The inner loop: a model moves left over the ones with a greater name; the part to its left is
-- reversed.
unfoldable pub sift : ModelInfo → List ModelInfo → List ModelInfo
sift m [] = m ∷ []
sift m (p ∷ ps) = if text_gtb p.name m.name then p ∷ sift m ps else m ∷ p ∷ ps

unfoldable pub sort_loop : List ModelInfo → List ModelInfo → List ModelInfo
unfolding sift
sort_loop left [] = left
sort_loop left (m ∷ ms) = sort_loop (sift m left) ms

abbrev pub reversed : List ModelInfo → List ModelInfo
reversed [] = []
reversed (m ∷ ms) = reversed ms ++ m ∷ []

unfoldable pub sort_model_info_by_name : List ModelInfo → List ModelInfo
unfolding sort_loop
sort_model_info_by_name models = reversed (sort_loop [] models)

abbrev pub stamped_info : ModelEntry → ModelInfo
stamped_info e = record e.info { status = if e.available then "ready" else "unavailable" }

unfoldable pub all_models : ModelRegistry → List ModelInfo
unfolding sort_model_info_by_name
all_models r = sort_model_info_by_name (map (λ p. stamped_info p.1) r.models)

unfoldable pub by_provider : String → ModelRegistry → List ModelInfo
unfolding sort_model_info_by_name
by_provider endpoint r =
    sort_model_info_by_name
      (map (λ p. p.1.info) (select (λ p. str_eq p.1.provider endpoint) r.models))
