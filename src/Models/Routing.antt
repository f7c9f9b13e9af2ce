-- ===== src/Models/Routing.antt =====
-- internal/runtime/routing.go: the routing tree and the choice of a turn's models.
use modeltap.Prelude.{
  String, Bool, false, List, [], ◌∷◌, Option, none, some, length, ltb, ◌==◌, if◌then◌else◌,
}
use modeltap.Prelude.Text.{str_eq, lookup, ◌<>◌}
use Prim.Native.Char.{code}
use modeltap.Tools.Json.{Json, null, text, arr, Items, nil, cons}

-- The keys of the tree are dotted paths.
abbrev pub Tree : Type 0
Tree = List (String × Json)

-- `json.Unmarshal` into a string, and into a slice of strings; `none` is an error.
unfoldable pub as_text : Json → Option String
as_text null = some ""
as_text (text s) = some s
as_text _ = none

unfoldable pub texts_of : Items → Option (List String)
unfolding as_text
texts_of nil = some []
texts_of (cons j js) = elim (as_text j) [
  | none ↦ none
  | some s ↦ elim (texts_of js) [ none ↦ none | some ss ↦ some (s ∷ ss) ]
]

abbrev pub as_texts : Json → Option (List String)
as_texts (arr items) = texts_of items
as_texts null = some []
as_texts _ = none

abbrev non_empty : List String → Option (List String)
non_empty [] = none
non_empty (m ∷ ms) = some (m ∷ ms)

-- The models of a key; there are several where there is more than one.
unfoldable pub extract : Tree → String → Option (List String)
unfolding as_text texts_of
extract tree key = elim (lookup key tree) [
  | none ↦ none
  | some raw ↦ elim (as_text raw) [
    | some single ↦ some (single ∷ [])
    | none ↦ elim (as_texts raw) [ none ↦ none | some models ↦ non_empty models ]
  ]
]

-- `path[:strings.LastIndex(path, ".")]`; `none` where there is no dot.
unfoldable pub before_last_dot : String → Option String
before_last_dot String.[] = none
before_last_dot (String.◌∷◌ c s) = elim (before_last_dot s) [
  | some front ↦ some (String.◌∷◌ c front)
  | none ↦ if code c == b'.' then some "" else none
]

-- The keys that a path is looked up under, in their order.
abbrev pub sibling_default : String → Tree → Option (List String)
sibling_default path tree = elim (before_last_dot path) [
  | none ↦ none
  | some front ↦ extract tree (front <> ".default")
]

unfoldable pub resolve : String → Tree → Option (List String)
unfolding extract before_last_dot
resolve path tree = elim (extract tree path) [
  | some models ↦ some models
  | none ↦ elim (sibling_default path tree) [
    | some models ↦ some models
    | none ↦ if str_eq path "default" then none else extract tree "default"
  ]
]

abbrev pub is_multi : List String → Bool
is_multi models = ltb 1 (length models)

-- The session's override is empty where there is none, or no session.
unfoldable pub resolve_for_turn : String → String → Tree → List String × Bool
unfolding resolve
resolve_for_turn override mode tree =
    if str_eq override ""
    then elim (resolve mode tree) [ none ↦ ([], false) | some models ↦ (models, is_multi models) ]
    else (override ∷ [], false)
