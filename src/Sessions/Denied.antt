-- ===== src/Sessions/Denied.antt =====
-- Sessions that a connection may not see (internal/runtime/session.go).
use modeltap.Prelude.{ℕ, ◌≡◌, refl, String, false, ◌⊎◌, inl, inr, none, some, arith}
use modeltap.Prelude.Text.{str_eq}
use modeltap.Conversation.Types.{Codec}
use modeltap.Sessions.Table.{Session, find_session}
use modeltap.Sessions.Active.{SessionServer, Conn, is_accessible}
use modeltap.Sessions.Handlers.{
  refused, session_missing, not_found, granted_session, handle_session_resume, handle_session_clear,
}
use modeltap.Sessions.Copy.{handle_session_fork}

-- No session, or one of another user; an empty user stands for none.
abbrev pub IsHidden : String → Conn → SessionServer → Type 0
IsHidden id conn sv =
    (find_session id sv.sessions ≡ none)
    ⊎ ((s : Session) × (find_session id sv.sessions ≡ some s)
        × (str_eq s.user_id "" ≡ false)
        × (str_eq conn.user_id "" ≡ false)
        × (str_eq s.user_id conn.user_id ≡ false))

granted-IsHidden :
    (id : String) (conn : Conn) (sv : SessionServer)
    → str_eq id "" ≡ false
    → IsHidden id conn sv
    → granted_session (some id) conn sv ≡ not_found session_missing
unfolding granted_session is_accessible
granted-IsHidden id conn sv n (inl e) = rw (n, e)
granted-IsHidden id conn sv n (inr (s, e, owned, known, other)) =
    ground (arith, n, e, owned, known, other)

-- A session of another user, where both users are named, is answered as one that does not exist, by
-- session.resume, session.clear and session.fork alike, and neither the connection nor the server is changed.
pub handlers-IsHidden :
    (codec : Codec) (fresh : ℕ → String) (new project id : String) (now : ℕ) (conn : Conn)
    (sv : SessionServer)
    → str_eq id "" ≡ false
    → IsHidden id conn sv
    → (handle_session_resume codec now (some (id, project)) conn sv
        ≡ (refused session_missing, conn, sv))
      × (handle_session_clear now (some id) conn sv ≡ (refused session_missing, conn, sv))
      × (handle_session_fork fresh new now (some id) conn sv ≡ (refused session_missing, conn, sv))
unfolding handle_session_resume handle_session_clear handle_session_fork
handlers-IsHidden codec fresh new project id now conn sv n h =
    let g = granted-IsHidden id conn sv n h in
    (
      rw (g, handle_session_resume) refl,
      rw (g, handle_session_clear) refl,
      rw (g, handle_session_fork) refl,
    )
