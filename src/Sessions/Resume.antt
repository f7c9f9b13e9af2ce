-- ===== src/Sessions/Resume.antt =====
-- A session that is resumed after the server forgot it (internal/runtime/session.go).
use modeltap.Prelude.{
  ℕ, ◌+◌, ◌≤◌, ◌≡◌, refl, sym, ap, ◌∙◌, String, false, List, [], ◌∷◌, Option, none, some, map,
  length, any, inl, inr, Bool-cases, Option-cases, if◌then◌else◌, arith,
}
use text.Mathlib.TextEquality.{eq_iff}
use modeltap.Prelude.Text.{str_eq, str_eq_iff, lookup, insert, lookup-insert}
use modeltap.Conversation.Types.{Turn, TurnSubmit, Codec, IsCodec}
use modeltap.Conversation.State.{
  Conversation, new_conversation, restore_from_turns, append_user_turn, append_assistant_turn,
}
use modeltap.Conversation.Table.{is_of, list_turns}
use modeltap.Conversation.Live.{
  Live, Call, submits, completes, answers, persisted, submit_turn, complete_turn,
  handle_tool_result, staged, step, steps,
}
use modeltap.Conversation.Records.{recovered}
use modeltap.Sessions.Table.{Session, find_session}
use modeltap.Sessions.Locks.{acquired, acquire_session_lock}
use modeltap.Sessions.Active.{
  ActiveSession, SessionServer, Conn, session_lock_ttl, new_active, ensure_active,
}
use modeltap.Sessions.Handlers.{
  found, granted_session, resumed, or_empty, restored_active, rehydrated, rehydrate,
  handle_session_resume,
}
use modeltap.Conversation.Restore.{restore_from_turns-steps}

persisted-session_id :
    (t : Turn) (c : Conversation) (rows : List Turn)
    → (persisted t c rows).1.conversation.session_id ≡ c.session_id
persisted-session_id t c rows = ground arith

module _ (codec : Codec) where
  submit_turn-session_id :
      (submit : TurnSubmit) (fresh : String) (now : ℕ) (l : Live)
      → (submit_turn codec submit fresh now l).1.conversation.session_id ≡ l.conversation.session_id
  unfolding submit_turn append_user_turn
  submit_turn-session_id submit fresh now l = ground arith

  step-session_id :
      (call : Call) (l : Live)
      → (step codec call l).1.conversation.session_id ≡ l.conversation.session_id
  unfolding step complete_turn handle_tool_result append_assistant_turn
  step-session_id (submits submit fresh now) l = submit_turn-session_id submit fresh now l
  step-session_id (completes resp fresh now) l = ground arith
  step-session_id (answers req turn_id fresh now) l =
      ground (arith, submit_turn-session_id (staged codec req turn_id l.conversation) fresh now l)

  steps-session_id :
      (calls : List Call) (l l' : Live)
      → steps codec calls l ≡ some l'
      → l'.conversation.session_id ≡ l.conversation.session_id
  unfolding steps
  steps-session_id [] l l' h = ground (arith, h)
  steps-session_id (call ∷ calls) l l' h =
      ground (arith, h, step-session_id call l, steps-session_id calls (step codec call l).1 l')

find_session-id :
    (id : String) (rows : List Session) (s : Session) → find_session id rows ≡ some s → s.id ≡ id
unfolding find_session
find_session-id id [] s h = cc h
find_session-id id (r ∷ rows) s h = elim (Bool-cases (str_eq r.id id)) [
  | inl e ↦ ground (arith, h, e, str_eq_iff r.id id e)
  | inr e ↦ find_session-id id rows s (ground (arith, h, e))
]

granted-id :
    (id : String) (conn : Conn) (sv : SessionServer) (s : Session)
    → granted_session (some id) conn sv ≡ found s
    → s.id ≡ id
unfolding granted_session
granted-id id conn sv s h = elim (Option-cases (find_session id sv.sessions)) [
  | inl e ↦ ground (arith, h, e)
  | inr (t, e) ↦ ground (arith, h, e, find_session-id id sv.sessions t e)
]

abbrev in_memory : Option ActiveSession → Option Conversation
in_memory none = none
in_memory (some s) = some s.conversation

-- The messages that the server has in memory.
abbrev pub conversation_of : String → SessionServer → Option Conversation
conversation_of id sv = in_memory (lookup id sv.active)

module _ (codec : Codec) (project : String) (now : ℕ) (conn : Conn) (sv : SessionServer)
    (sess : Session) (rows : List Session) (c : Conversation) where
  resume-restores :
      granted_session (some sess.id) conn sv ≡ found sess
      → acquire_session_lock sess.id conn.id (now + session_lock_ttl) now sv.sessions
        ≡ (acquired, rows)
      → lookup sess.id sv.active ≡ none
      → restore_from_turns codec (list_turns sess.id sv.turns) (new_conversation sess.id)
        ≡ (none, c)
      → ((handle_session_resume codec now (some (sess.id, project)) conn sv).0
          ≡ resumed sess.id sess.active_model project (or_empty sess.model_override))
        × ((handle_session_resume codec now (some (sess.id, project)) conn sv).1.session_id
            ≡ sess.id)
        × (conversation_of sess.id
              (handle_session_resume codec now (some (sess.id, project)) conn sv).2
            ≡ some c)
  unfolding handle_session_resume ensure_active
  resume-restores g a n r =
      let sv' : SessionServer = record sv { sessions = rows } in
      let e : ensure_active sess.id (record conn { project = project }) sv.active
          ≡ new_active sess.id (record conn { project = project }) =
        rw (n, ensure_active) refl in
      let s : ActiveSession = new_active sess.id (record conn { project = project }) in
      let restored : rehydrate codec sess project conn sv'
          ≡ rehydrated sess project s conn sv' (none, c) =
        ap
          (λ t.
            rehydrated sess project t conn sv'
              (restore_from_turns codec (list_turns sess.id sv.turns) t.conversation))
          e
        ∙ ap (rehydrated sess project s conn sv') r in
      let all : handle_session_resume codec now (some (sess.id, project)) conn sv
          ≡ rehydrated sess project s conn sv' (none, c) =
        rw (g, handle_session_resume, a) restored in
      let x : ActiveSession = restored_active sess c s in
      let there : lookup sess.id (insert sess.id x sv.active) ≡ some x =
        lookup-insert sess.id sess.id x sv.active
        ∙ ap (λ b. if b then some x else lookup sess.id sv.active)
            ((eq_iff sess.id sess.id).1 refl) in
      rw all (refl, refl, ap in_memory there)

-- A session was used, each turn of it written to the table, and the server forgot it. A connection
-- that may see it and gets its lock resumes it: the reply names the session, the connection is
-- bound to it, and the server has the same messages in memory, each as it survives its encoding,
-- with the same two sequence numbers. It has at most 2000 turns.
pub handle_session_resume-steps :
    (codec : Codec) (law : IsCodec codec) (calls : List Call) (earlier : List Turn) (l : Live)
    (project : String) (now : ℕ) (conn : Conn) (sv : SessionServer) (sess : Session)
    (rows : List Session)
    → any (is_of sess.id) earlier ≡ false
    → steps codec calls (record { conversation = new_conversation sess.id; rows = earlier })
      ≡ some l
    → length l.conversation.turns ≤ 2000
    → sv.turns ≡ l.rows
    → granted_session (some sess.id) conn sv ≡ found sess
    → acquire_session_lock sess.id conn.id (now + session_lock_ttl) now sv.sessions
      ≡ (acquired, rows)
    → lookup sess.id sv.active ≡ none
    → ((handle_session_resume codec now (some (sess.id, project)) conn sv).0
        ≡ resumed sess.id sess.active_model project (or_empty sess.model_override))
      × ((handle_session_resume codec now (some (sess.id, project)) conn sv).1.session_id ≡ sess.id)
      × (conversation_of sess.id
            (handle_session_resume codec now (some (sess.id, project)) conn sv).2
          ≡ some (record l.conversation { turns = map (recovered codec) l.conversation.turns }))
handle_session_resume-steps codec law calls earlier l project now conn sv sess rows new done few
      same g a n =
    let c : Conversation = record l.conversation {
      turns = map (recovered codec) l.conversation.turns;
    } in
    let e =
      steps-session_id codec calls
        (record { conversation = new_conversation sess.id; rows = earlier }) l done in
    resume-restores codec project now conn sv sess rows c g a n (
      ap (λ ts. restore_from_turns codec (list_turns sess.id ts) (new_conversation sess.id)) same
      ∙ (ap (λ i. restore_from_turns codec (list_turns i l.rows) (new_conversation i)) (sym e)
          ∙ restore_from_turns-steps codec law calls sess.id earlier l new done few))
