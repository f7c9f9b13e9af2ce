-- ===== src/Sessions/Exclusion.antt =====
-- A session has one owner until its lock expires or the owner gives it back.
use modeltap.Prelude.{
  ℕ, ◌≡◌, String, Bool, not, ◌&&◌, ◌||◌, List, [], ◌∷◌, some, ltb, ◌/◌, if◌then◌else◌,
}
use modeltap.Prelude.Text.{str_eq}
use modeltap.Sessions.Instants.{second}
use modeltap.Sessions.Table.{Session, find_session}
use modeltap.Sessions.Locks.{acquire_session_lock, release_session_lock}

pub data LockCall : Type 0 where
  acquires : (id owner : String) (expires_at now : ℕ) → LockCall
  releases : (id owner : String) (now : ℕ) → LockCall

unfoldable pub lock_step : LockCall → List Session → List Session
unfolding acquire_session_lock release_session_lock
lock_step (acquires id owner expires_at now) rows =
    (acquire_session_lock id owner expires_at now rows).1
lock_step (releases id owner now) rows = release_session_lock id owner now rows

unfoldable pub lock_steps : List LockCall → List Session → List Session
unfolding lock_step
lock_steps [] rows = rows
lock_steps (c ∷ cs) rows = lock_steps cs (lock_step c rows)

-- The row of a session, with its lock.
pub record Held (id owner : String) (expires_at : ℕ) (rows : List Session) : Type 0 where
  pub row : Session
  pub found : find_session id rows ≡ some row
  pub owned : row.lock_owner ≡ some owner
  pub until : row.lock_expires_at ≡ some expires_at

abbrev updated : String → String → (Session → Bool) → (Session → Session) → Session → Session
updated id j p f s = if str_eq j id && p s then f s else s

-- A call that is about another session, or by another owner in an earlier second than that
-- in which the lock expires.
abbrev pub is_harmless : String → String → ℕ → LockCall → Bool
is_harmless id owner expires_at (acquires j o e now) =
    not (str_eq j id) || (not (str_eq owner o) && ltb (now / second) (expires_at / second))
is_harmless id owner expires_at (releases j o now) = not (str_eq j id) || not (str_eq owner o)
