-- ===== src/Sessions/Table.antt =====
-- internal/storage/sessions.go: sessions as the list of their rows. An instant is a number, and is
-- compared as its text in the table.
use modeltap.Prelude.{
  ℕ, String, Bool, true, not, ◌&&◌, List, [], ◌∷◌, ◌++◌, Option, none, some, select, any, take,
  drop, ltb, ◌==◌, if◌then◌else◌,
}
use modeltap.Prelude.Text.{str_eq, text_mem}
use modeltap.Sessions.Instants.{is_before}

-- The costs are float64, by their bits; a nil raw message is `none`.
pub record Session : Type 0 where
  pub id : String
  pub user_id : String
  pub project : String
  pub summary : String
  pub active_model : String
  pub model_override : Option String
  pub routing_overrides : Option String
  pub pinned_items : Option String
  pub compaction_state : Option String
  pub total_cost : ℕ
  pub total_input_tokens : ℕ
  pub total_output_tokens : ℕ
  pub context_pct : ℕ
  pub status : String
  pub lock_owner : Option String
  pub lock_expires_at : Option ℕ
  pub created_at : ℕ
  pub updated_at : ℕ

abbrev or_raw : Option String → String → Option String
or_raw none d = some d
or_raw (some raw) d = some raw

abbrev pub normalized_session : Session → Session
normalized_session s = record s {
  routing_overrides = or_raw s.routing_overrides "{}";
  pinned_items = or_raw s.pinned_items "[]";
  compaction_state = or_raw s.compaction_state "{}";
}

-- `none` is an error: the identifier is the primary key.
unfoldable pub create_session : Session → List Session → Option (List Session)
create_session s rows =
    if any (λ r. str_eq r.id s.id) rows then none else some (rows ++ normalized_session s ∷ [])

unfoldable pub find_session : String → List Session → Option Session
find_session id [] = none
find_session id (r ∷ rs) = if str_eq r.id id then some r else find_session id rs

-- `limit` and `offset` are not positive where they do not count.
pub record SessionFilter : Type 0 where
  pub user_id : String
  pub project : String
  pub status : String
  pub since : Option ℕ
  pub limit : ℕ
  pub offset : ℕ

pub data ListError : Type 0 where
  user_id_required invalid_status : ListError
  -- SQLite has no OFFSET without a LIMIT.
  syntax_error : ListError

pub data Listed : Type 0 where
  sessions : List Session → Listed
  refused : ListError → Listed

abbrev pub valid_session_statuses : List String
valid_session_statuses = "" ∷ "active" ∷ "suspended" ∷ "completed" ∷ []

abbrev is_since : Option ℕ → ℕ → Bool
is_since none t = true
is_since (some s) t = not (is_before t s)

abbrev pub is_empty_or : String → String → Bool
is_empty_or wanted found = if str_eq wanted "" then true else str_eq found wanted

abbrev pub is_listed : SessionFilter → Session → Bool
is_listed f s =
    str_eq s.user_id f.user_id
    && (is_empty_or f.project s.project
        && (is_empty_or f.status s.status && is_since f.since s.updated_at))

-- `ORDER BY updated_at DESC`; rows with the same instant stay in the order of the table.
unfoldable pub insert_by_update : Session → List Session → List Session
unfolding is_before
insert_by_update s [] = s ∷ []
insert_by_update s (r ∷ rs) =
    if not (is_before s.updated_at r.updated_at) then s ∷ r ∷ rs else r ∷ insert_by_update s rs

unfoldable pub sort_by_update : List Session → List Session
unfolding insert_by_update
sort_by_update [] = []
sort_by_update (s ∷ ss) = insert_by_update s (sort_by_update ss)

abbrev limited : ℕ → List Session → List Session
limited limit rows = if ltb 0 limit then take limit rows else rows

unfoldable pub list_sessions : SessionFilter → List Session → Listed
unfolding sort_by_update is_before
list_sessions f rows =
    if str_eq f.user_id ""
    then refused user_id_required
    else if not (text_mem f.status valid_session_statuses)
    then refused invalid_status
    else if ltb 0 f.offset && f.limit == 0
    then refused syntax_error
    else sessions (limited f.limit (drop f.offset (sort_by_update (select (is_listed f) rows))))

-- The rows of turns and events that refer to a deleted session go too (ON DELETE CASCADE).
unfoldable pub delete_sessions_before : ℕ → List Session → List Session
unfolding is_before
delete_sessions_before before rows = select (λ s. not (is_before s.updated_at before)) rows
