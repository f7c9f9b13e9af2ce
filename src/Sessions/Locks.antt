-- ===== src/Sessions/Locks.antt =====
-- internal/storage/sessions.go: the lock of a session.
use modeltap.Prelude.{
  ℕ, String, Bool, true, false, ◌&&◌, ◌||◌, List, [], ◌∷◌, Option, none, some, if◌then◌else◌,
}
use modeltap.Prelude.Text.{str_eq}
use modeltap.Sessions.Instants.{is_before}
use modeltap.Sessions.Table.{Session, find_session}

abbrev is_past : Option ℕ → ℕ → Bool
is_past none now = false
is_past (some t) now = is_before t now

abbrev pub is_owner : Option String → String → Bool
is_owner none owner = false
is_owner (some o) owner = str_eq o owner

abbrev is_unlocked : Option String → Bool
is_unlocked none = true
is_unlocked (some o) = false

-- `lock_owner IS NULL OR lock_expires_at < ? OR lock_owner = ?`.
abbrev pub is_free_for : String → ℕ → Session → Bool
is_free_for owner now s =
    is_unlocked s.lock_owner || (is_past s.lock_expires_at now || is_owner s.lock_owner owner)

-- An UPDATE of the row of a session, where a test on it holds.
unfoldable pub update_where :
    String → (Session → Bool) → (Session → Session) → List Session → List Session
update_where id p f [] = []
update_where id p f (r ∷ rs) = (if str_eq r.id id && p r then f r else r) ∷ update_where id p f rs

pub data LockReply : Type 0 where
  acquired : LockReply
  held_by : (owner : String) → LockReply
  session_not_found : LockReply

abbrev owner_text : Option String → String
owner_text none = ""
owner_text (some o) = o

-- `now` is the clock; the identifier is the primary key, so one row at most is updated.
unfoldable pub acquire_session_lock :
    String → String → ℕ → ℕ → List Session → LockReply × List Session
unfolding find_session update_where is_before
acquire_session_lock id owner expires_at now rows = elim (find_session id rows) [
  | none ↦ (session_not_found, rows)
  | some s ↦
      if is_free_for owner now s
      then (
        acquired,
        update_where id (is_free_for owner now)
            (λ r. record r {
              lock_owner = some owner;
              lock_expires_at = some expires_at;
              updated_at = now;
            })
            rows,
      )
      else (held_by (owner_text s.lock_owner), rows)
]

abbrev pub released : ℕ → Session → Session
released now r = record r { lock_owner = none; lock_expires_at = none; updated_at = now }

unfoldable pub release_session_lock : String → String → ℕ → List Session → List Session
unfolding update_where
release_session_lock id owner now rows =
    update_where id (λ r. is_owner r.lock_owner owner) (released now) rows

unfoldable pub force_release_session_lock : String → ℕ → List Session → List Session
unfolding update_where
force_release_session_lock id now rows = update_where id (λ r. true) (released now) rows
