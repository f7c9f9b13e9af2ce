-- ===== src/Tools/Json.antt =====
-- encoding/json, as far as the tools use it: `Unmarshal` into a struct of text fields. A key finds its
-- field by its folded name, a later key overwrites an earlier one, and a wrong type is an error.
use modeltap.Prelude.{ℕ, Bool, true, false, ◌&&◌, List, [], ◌∷◌, Option, none, some, if◌then◌else◌}
use modeltap.Prelude.Text.{codes}
use Prim.Native.String.{String}
use modeltap.Tools.Regex.{folds}

mutual
  pub data Json : Type 0 where
    null : Json
    bool : Bool → Json
    -- A number, by its digits.
    num : String → Json
    text : String → Json
    arr : Items → Json
    obj : Fields → Json

  pub data Items : Type 0 where
    nil : Items
    cons : Json → Items → Items

  pub data Fields : Type 0 where
    end : Fields
    field : String → Json → Fields → Fields

-- The bytes of a tool's input; `none` where they are no JSON.
abbrev pub Input : Type 0
Input = Option Json

abbrev folds_codes : List ℕ → List ℕ → Bool
folds_codes [] [] = true
folds_codes (c ∷ cs) (x ∷ xs) = folds c x && folds_codes cs xs
folds_codes _ _ = false

-- `name` in lower case against a key of the text.
abbrev pub is_field : String → String → Bool
is_field name key = folds_codes (codes name) (codes key)

-- `none` is an error.
abbrev set_text : Option String → Json → Option String
set_text none v = none
set_text (some old) null = some old
set_text (some old) (text t) = some t
set_text (some old) v = none

text_in : String → Option String → Fields → Option String
text_in name so_far end = so_far
text_in name so_far (field key v rest) =
    text_in name (if is_field name key then set_text so_far v else so_far) rest

abbrev texts_of : Items → Option (List String)
texts_of nil = some []
texts_of (cons null rest) = elim (texts_of rest) [ none ↦ none | some ts ↦ some ("" ∷ ts) ]
texts_of (cons (text t) rest) = elim (texts_of rest) [ none ↦ none | some ts ↦ some (t ∷ ts) ]
texts_of (cons v rest) = none

abbrev set_texts : Option (List String) → Json → Option (List String)
set_texts none v = none
set_texts (some old) null = some []
set_texts (some old) (arr items) = texts_of items
set_texts (some old) v = none

texts_in : String → Option (List String) → Fields → Option (List String)
texts_in name so_far end = so_far
texts_in name so_far (field key v rest) =
    texts_in name (if is_field name key then set_texts so_far v else so_far) rest

-- A text field of the struct.
unfoldable pub text_field : String → Input → Option String
unfolding text_in
text_field name none = none
text_field name (some null) = some ""
text_field name (some (obj fields)) = text_in name (some "") fields
text_field name (some v) = none

-- A field that is a list of texts.
unfoldable pub texts_field : String → Input → Option (List String)
unfolding texts_in
texts_field name none = none
texts_field name (some null) = some []
texts_field name (some (obj fields)) = texts_in name (some []) fields
texts_field name (some v) = none
