-- ===== src/Sessions/Handlers.antt =====
-- internal/runtime/session.go: session.create, session.resume and session.clear. The
-- database itself does not fail. A request is `none` where its parameters do not decode.
use modeltap.Prelude.{
  ℕ, ◌+◌, String, Bool, true, false, [], ◌∷◌, ◌++◌, Option, none, some, if◌then◌else◌,
}
use modeltap.Prelude.Text.{◌<>◌, str_eq, insert, decimal}
use modeltap.Conversation.Types.{Codec}
use modeltap.Conversation.State.{Conversation, reset, restore_from_turns}
use modeltap.Conversation.Table.{list_turns}
use modeltap.Sessions.Table.{Session, create_session, find_session}
use modeltap.Sessions.Locks.{LockReply, acquired, held_by, session_not_found, acquire_session_lock}
use modeltap.Sessions.Active.{
  ActiveSession, SessionServer, Conn, session_lock_ttl, is_accessible, ensure_active,
}

pub data Code : Type 0 where
  invalid_params session_missing session_locked internal_error : Code

pub data Reply : Type 0 where
  refused : Code → Reply
  created : (session_id project : String) → Reply
  resumed : (session_id model project model_override : String) → Reply
  cleared : (turns : ℕ) → Reply
  forked : (new_session_id original_session_id : String) → Reply

-- The reply, the connection and the server.
abbrev pub Answer : Type 0
Answer = Reply × Conn × SessionServer

abbrev pub or_empty : Option String → String
or_empty none = ""
or_empty (some s) = s

abbrev pub lock_code : LockReply → Code
lock_code acquired = internal_error
lock_code (held_by owner) = session_locked
lock_code session_not_found = internal_error

abbrev pub is_acquired : LockReply → Bool
is_acquired acquired = true
is_acquired (held_by owner) = false
is_acquired session_not_found = false

abbrev pub put_active : ActiveSession → SessionServer → SessionServer
put_active s sv = record sv { active = insert s.id s sv.active }

-- Bound to a session, with no release of its lock ahead.
abbrev pub bound : String → String → Conn → Conn
bound session_id project conn = record conn {
  session_id = session_id;
  project = project;
  releasing = false;
}

abbrev pub fresh_session : String → String → String → ℕ → Session
fresh_session id user_id project now = record {
  id = id;
  user_id = user_id;
  project = project;
  summary = "";
  active_model = "";
  model_override = none;
  routing_overrides = none;
  pinned_items = none;
  compaction_state = none;
  total_cost = 0;
  total_input_tokens = 0;
  total_output_tokens = 0;
  context_pct = 0;
  status = "active";
  lock_owner = none;
  lock_expires_at = none;
  created_at = now;
  updated_at = now;
}

-- `id` is the fresh identifier, `project` the root in the request.
unfoldable pub handle_session_create : String → ℕ → Option String → Conn → SessionServer → Answer
unfolding create_session acquire_session_lock ensure_active
handle_session_create id now none conn sv = (refused invalid_params, conn, sv)
handle_session_create id now (some project) conn sv =
    elim (create_session (fresh_session id conn.user_id project now) sv.sessions) [
      | none ↦ (refused internal_error, conn, sv)
      | some rows ↦
          let (lock, rows') = acquire_session_lock id conn.id (now + session_lock_ttl) now rows in
          let sv' = record sv { sessions = rows' } in
          let conn' = bound id project conn in
          let s = ensure_active id conn' sv'.active in
          if is_acquired lock
          then (
            created id project,
            conn',
            put_active (record s { user_id = conn.user_id; project = project }) sv',
          )
          else (refused (lock_code lock), conn, sv')
    ]

-- A session by its ID, for a connection that may see it; else the code of the refusal.
pub data Found : Type 0 where
  found : Session → Found
  not_found : Code → Found

unfoldable pub granted_session : Option String → Conn → SessionServer → Found
unfolding find_session is_accessible
granted_session none conn sv = not_found invalid_params
granted_session (some id) conn sv =
    if str_eq id "" then not_found invalid_params else elim (find_session id sv.sessions) [
      | none ↦ not_found session_missing
      | some s ↦ if is_accessible conn s then found s else not_found session_missing
    ]

-- The totals and the override that the row has.
abbrev pub restored_active : Session → Conversation → ActiveSession → ActiveSession
restored_active sess c s = record s {
  conversation = c;
  user_id = sess.user_id;
  project = sess.project;
  model_override = elim sess.model_override [ none ↦ s.model_override | some m ↦ m ];
  total_cost = sess.total_cost;
  total_input_tokens = sess.total_input_tokens;
  total_output_tokens = sess.total_output_tokens;
  context_pct = sess.context_pct;
}

-- By the result of the restore, which works in place: an error leaves the entry in the map.
abbrev pub rehydrated :
    Session → String → ActiveSession → Conn → SessionServer → Option String × Conversation → Answer
rehydrated sess project s conn sv (some e, c) = (
  refused internal_error,
  record conn { project = project },
  put_active (record s { conversation = c }) sv,
)
rehydrated sess project s conn sv (none, c) = (
  resumed sess.id sess.active_model project (or_empty sess.model_override),
  bound sess.id project conn,
  put_active (restored_active sess c s) sv,
)

-- With the lock.
abbrev pub rehydrate : Codec → Session → String → Conn → SessionServer → Answer
rehydrate codec sess project conn sv =
    let s = ensure_active sess.id (record conn { project = project }) sv.active in
    rehydrated sess project s conn sv
      (restore_from_turns codec (list_turns sess.id sv.turns) s.conversation)

abbrev pub resume_locked : Codec → Session → String → LockReply → Conn → SessionServer → Answer
resume_locked codec sess project lock conn sv =
    if is_acquired lock
    then rehydrate codec sess project conn sv
    else (refused (lock_code lock), conn, sv)

unfoldable pub handle_session_resume :
    Codec → ℕ → Option (String × String) → Conn → SessionServer → Answer
unfolding granted_session acquire_session_lock ensure_active restore_from_turns list_turns
handle_session_resume codec now none conn sv = (refused invalid_params, conn, sv)
handle_session_resume codec now (some (id, project)) conn sv =
    elim (granted_session (some id) conn sv) [
      | not_found code ↦ (refused code, conn, sv)
      | found sess ↦
          let (lock, rows) =
            acquire_session_lock id conn.id (now + session_lock_ttl) now sv.sessions in
          resume_locked codec sess project lock conn (record sv { sessions = rows })
    ]

-- The lock is not asked for.
unfoldable pub handle_session_clear : ℕ → Option String → Conn → SessionServer → Answer
unfolding granted_session ensure_active reset
handle_session_clear now req conn sv = elim (granted_session req conn sv) [
  | not_found code ↦ (refused code, conn, sv)
  | found sess ↦
      let s = ensure_active sess.id conn sv.active in
      let (n, c) = reset s.conversation in
      let sv' = put_active (record s { conversation = c }) sv in
      (
        cleared n,
        conn,
        record sv' {
          events =
              sv.events
              ++ record {
                session_id = sess.id;
                type = "manual_clear";
                detail = "cleared " <> (decimal n <> " in-memory turns");
                at = now;
              }
                ∷ [];
        },
      )
]
