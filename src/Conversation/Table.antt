-- ===== src/Conversation/Table.antt =====
-- internal/storage/turns.go over the table turns of sqlite.go: the list of its rows.
use modeltap.Prelude.{
  ℕ, String, Bool, not, ◌&&◌, List, [], ◌∷◌, ◌++◌, Option, none, some, select, any, take, leb,
  if◌then◌else◌,
}
use modeltap.Prelude.Text.{str_eq}
use modeltap.Conversation.Types.{Turn}

abbrev or_raw : Option String → String → Option String
or_raw none d = some d
or_raw (some raw) d = some raw

-- What insertTurn writes for nil fields; a nil list is the empty one.
abbrev pub normalized_turn : Turn → Turn
normalized_turn t = record t {
  content = or_raw t.content "\"\"";
  tool_calls = or_raw t.tool_calls "[]";
}

-- `none` is an error: the identifier is the primary key.
unfoldable pub create_turn : Turn → List Turn → Option (List Turn)
create_turn t rows =
    if any (λ r. str_eq r.id t.id) rows then none else some (rows ++ normalized_turn t ∷ [])

unfoldable pub get_turn : String → List Turn → Option Turn
get_turn id [] = none
get_turn id (r ∷ rs) = if str_eq r.id id then some r else get_turn id rs

-- `ORDER BY sequence`; rows with the same sequence stay in the order of the table.
unfoldable pub insert_by_sequence : Turn → List Turn → List Turn
insert_by_sequence t [] = t ∷ []
insert_by_sequence t (x ∷ xs) =
    if leb t.sequence x.sequence then t ∷ x ∷ xs else x ∷ insert_by_sequence t xs

unfoldable pub sort_by_sequence : List Turn → List Turn
unfolding insert_by_sequence
sort_by_sequence [] = []
sort_by_sequence (t ∷ ts) = insert_by_sequence t (sort_by_sequence ts)

abbrev pub max_turns_per_list_call : ℕ
max_turns_per_list_call = 2000

abbrev pub is_of : String → Turn → Bool
is_of session_id t = str_eq t.session_id session_id

unfoldable pub list_turns : String → List Turn → List Turn
unfolding sort_by_sequence
list_turns session_id rows =
    take max_turns_per_list_call (sort_by_sequence (select (is_of session_id) rows))

unfoldable pub delete_turn : String → String → List Turn → List Turn
delete_turn session_id turn_id rows =
    select (λ t. not (str_eq t.id turn_id && str_eq t.session_id session_id)) rows
