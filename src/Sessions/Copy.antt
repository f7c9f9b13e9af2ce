-- ===== src/Sessions/Copy.antt =====
-- internal/runtime/session.go: session.fork.
use modeltap.Prelude.{
  ℕ, suc, String, Bool, true, false, List, [], ◌∷◌, ◌++◌, Option, none, some, if◌then◌else◌,
}
use modeltap.Prelude.Text.{◌<>◌}
use modeltap.Conversation.Types.{Turn}
use modeltap.Conversation.Table.{create_turn, list_turns}
use modeltap.Sessions.Table.{Session, create_session}
use modeltap.Sessions.Active.{ServerSessionEvent, SessionServer, Conn}
use modeltap.Sessions.Handlers.{
  Answer, refused, internal_error, forked, found, not_found, fresh_session, granted_session,
}

abbrev pub forked_session : String → ℕ → Session → Session
forked_session id now src = record (fresh_session id src.user_id src.project now) {
  summary = src.summary;
  active_model = src.active_model;
  pinned_items = src.pinned_items;
  compaction_state = src.compaction_state;
}

abbrev pub copied_turn : String → String → ℕ → Turn → Turn
copied_turn turn_id session_id now t = record t {
  id = turn_id;
  session_id = session_id;
  created_at = now;
}

-- The copies one after the other, `fresh` giving each its identifier; an error leaves those made.
unfoldable pub copy_turns : (ℕ → String) → String → ℕ → ℕ → List Turn → List Turn → Bool × List Turn
unfolding create_turn
copy_turns fresh session_id now n [] rows = (true, rows)
copy_turns fresh session_id now n (t ∷ ts) rows =
    elim (create_turn (copied_turn (fresh n) session_id now t) rows) [
      | none ↦ (false, rows)
      | some rows' ↦ copy_turns fresh session_id now (suc n) ts rows'
    ]

abbrev pub fork_event : String → String → ℕ → ServerSessionEvent
fork_event source new now = record {
  session_id = source;
  type = "fork";
  detail = "forked to " <> new;
  at = now;
}

-- `new` is the fresh identifier of the session.
unfoldable pub handle_session_fork :
    (ℕ → String) → String → ℕ → Option String → Conn → SessionServer → Answer
unfolding granted_session create_session list_turns copy_turns
handle_session_fork fresh new now req conn sv = elim (granted_session req conn sv) [
  | not_found code ↦ (refused code, conn, sv)
  | found src ↦ elim (create_session (forked_session new now src) sv.sessions) [
    | none ↦ (refused internal_error, conn, sv)
    | some rows ↦
        let (done, turns) = copy_turns fresh new now 0 (list_turns src.id sv.turns) sv.turns in
        if done
        then (
          forked new src.id,
          conn,
          record sv {
            sessions = rows;
            turns = turns;
            events = sv.events ++ fork_event src.id new now ∷ [];
          },
        )
        else (refused internal_error, conn, record sv { sessions = rows; turns = turns })
  ]
]
