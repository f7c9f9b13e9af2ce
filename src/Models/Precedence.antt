-- ===== src/Models/Precedence.antt =====
-- What the catalog knows of a name: the manual override, else the last endpoint that discovered it,
-- else the built-in model.
use modeltap.Prelude.{
  ◌≡◌, refl, ap, ◌∙◌, inl, inr, String, ◌&&◌, List, [], ◌∷◌, Option, none, some, arith,
  Option-cases, if◌then◌else◌,
}
use modeltap.Prelude.Text.{str_eq, text_mem, lookup, insert, lookup-insert}
use text.Mathlib.TextEquality.{eq_iff}
use modeltap.Models.Types.{ModelInfo, ModelEntry, ModelOverrideConfig, ProviderEndpoint}
use modeltap.Models.Registry.{
  ModelRegistry, first_of_type, builtin_entry, add_builtins, builtin_pass, discovered_entry,
  add_discovered, discovered_pass, manual_entry, manual_pass, rebuild, get_model,
}

-- The last endpoint that discovered a name.
unfoldable pub last_serving : String → List ProviderEndpoint → Option ProviderEndpoint
last_serving name [] = none
last_serving name (ep ∷ eps) = elim (last_serving name eps) [
  | some later ↦ some later
  | none ↦ if ep.discover && text_mem name ep.models then some ep else none
]

unfoldable pub last_named : String → List ModelInfo → Option ModelInfo
last_named name [] = none
last_named name (m ∷ ms) = elim (last_named name ms) [
  | some later ↦ some later
  | none ↦ if str_eq m.name name then some m else none
]

abbrev builtin_by : String → List ModelInfo → Option ProviderEndpoint → Option ModelEntry
builtin_by name ms none = none
builtin_by name ms (some ep) = elim (last_named name ms) [
  | none ↦ none
  | some m ↦ some (builtin_entry ep m)
]

-- A built-in model counts where an endpoint of its type is configured.
unfoldable pub builtin_model :
    List ProviderEndpoint → List (String × List ModelInfo) → String → Option ModelEntry
unfolding last_named
builtin_model eps [] name = none
builtin_model eps ((t, ms) ∷ rest) name = elim (builtin_by name ms (first_of_type t eps)) [
  | some e ↦ some e
  | none ↦ builtin_model eps rest name
]

abbrev pub or_else : Option ModelEntry → Option ModelEntry → Option ModelEntry
or_else (some e) later = some e
or_else none later = later

abbrev pub discovered_model : List ProviderEndpoint → String → Option ModelEntry
discovered_model eps name = elim (last_serving name eps) [
  | none ↦ none
  | some ep ↦ some (discovered_entry ep name)
]

abbrev pub manual_model :
    List ProviderEndpoint → List (String × ModelOverrideConfig) → String → Option ModelEntry
manual_model eps overrides name = elim (lookup name overrides) [
  | none ↦ none
  | some ov ↦ some (manual_entry eps name ov)
]

lookup-add_builtins :
    (name : String) (ep : ProviderEndpoint) (ms : List ModelInfo)
    (models : List (String × ModelEntry))
    → lookup name (add_builtins ep ms models)
      ≡ or_else (builtin_by name ms (some ep)) (lookup name models)
unfolding add_builtins last_named
lookup-add_builtins name ep [] models = refl
lookup-add_builtins name ep (m ∷ ms) models =
    lookup-add_builtins name ep ms (insert m.name (builtin_entry ep m) models)
    ∙ ground (arith, lookup-insert m.name name (builtin_entry ep m) models)

lookup-builtin_pass :
    (name : String) (eps : List ProviderEndpoint) (builtins : List (String × List ModelInfo))
    → lookup name (builtin_pass eps builtins) ≡ builtin_model eps builtins name
unfolding builtin_pass builtin_model
lookup-builtin_pass name eps [] = refl
lookup-builtin_pass name eps ((t, ms) ∷ rest) = elim (Option-cases (first_of_type t eps)) [
  | inl missing ↦ ground (arith, missing, lookup-builtin_pass name eps rest)
  | inr (ep, found) ↦ ground (
    arith,
    found,
    lookup-add_builtins name ep ms (builtin_pass eps rest),
    lookup-builtin_pass name eps rest,
  )
]

lookup-add_discovered :
    (name : String) (ep : ProviderEndpoint) (names : List String)
    (models : List (String × ModelEntry))
    → lookup name (add_discovered ep names models)
      ≡ (if text_mem name names then some (discovered_entry ep name) else lookup name models)
unfolding add_discovered
lookup-add_discovered name ep [] models = refl
lookup-add_discovered name ep (n ∷ names) models =
    lookup-add_discovered name ep names (insert n (discovered_entry ep n) models)
    ∙ ground (arith, eq_iff n name, lookup-insert n name (discovered_entry ep n) models)

lookup-discovered_pass :
    (name : String) (eps : List ProviderEndpoint) (models : List (String × ModelEntry))
    → lookup name (discovered_pass eps models)
      ≡ or_else (discovered_model eps name) (lookup name models)
unfolding discovered_pass last_serving
lookup-discovered_pass name [] models = refl
lookup-discovered_pass name (ep ∷ eps) models =
    lookup-discovered_pass name eps
      (if ep.discover then add_discovered ep ep.models models else models)
    ∙ ground (arith, lookup-add_discovered name ep ep.models models)

lookup-manual_pass :
    (name : String) (eps : List ProviderEndpoint) (overrides : List (String × ModelOverrideConfig))
    (models : List (String × ModelEntry))
    → lookup name (manual_pass eps overrides models)
      ≡ or_else (manual_model eps overrides name) (lookup name models)
unfolding manual_pass
lookup-manual_pass name eps [] models = refl
lookup-manual_pass name eps ((n, ov) ∷ rest) models = ground (
  arith,
  eq_iff n name,
  lookup-insert n name (manual_entry eps n ov) (manual_pass eps rest models),
  lookup-manual_pass name eps rest models,
)

-- A rebuilt catalog answers by the precedence.
pub get_model-rebuild :
    (r : ModelRegistry) (eps : List ProviderEndpoint) (name : String)
    → r.providers ≡ some eps
    → get_model name (rebuild r)
      ≡ or_else
          (manual_model eps r.manual_overrides name)
          (or_else (discovered_model eps name) (builtin_model eps r.builtins name))
unfolding get_model rebuild
get_model-rebuild r eps name h =
    rw (rebuild, h)
      (lookup-manual_pass name eps r.manual_overrides
          (discovered_pass eps (builtin_pass eps r.builtins))
        ∙ ap (or_else (manual_model eps r.manual_overrides name)) (
            lookup-discovered_pass name eps (builtin_pass eps r.builtins)
            ∙ ap (or_else (discovered_model eps name)) (lookup-builtin_pass name eps r.builtins)))
