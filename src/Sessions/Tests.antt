-- ===== src/Sessions/Tests.antt =====
-- Two clients and a session.
use modeltap.Prelude.{◌≡◌, refl, List, [], ◌∷◌, none}
use modeltap.Sessions.Table.{Session, refused, syntax_error, list_sessions}
use modeltap.Sessions.Locks.{acquired, acquire_session_lock}
use modeltap.Sessions.Exclusion.{LockCall, acquires, releases}

abbrev a_session : Session
a_session = record {
  id = "s";
  user_id = "ada";
  project = "p";
  summary = "";
  active_model = "";
  model_override = none;
  routing_overrides = none;
  pinned_items = none;
  compaction_state = none;
  total_cost = 0;
  total_input_tokens = 0;
  total_output_tokens = 0;
  context_pct = 0;
  status = "active";
  lock_owner = none;
  lock_expires_at = none;
  created_at = 1;
  updated_at = 1;
}

abbrev locked : List Session
locked = (acquire_session_lock "s" "c1" 100000000000 10 (a_session ∷ [])).1

abbrev between : List LockCall
between =
    acquires "s" "c2" 150000000000 50000000000
    ∷ releases "s" "c2" 60
    ∷ acquires "t" "c1" 160 70
    ∷ []

-- A lock that expires half a second past 100 s is taken away at 100 s, half a second early.
taken_early :
    (acquire_session_lock "s" "c3" 200000000000 100000000000
      (acquire_session_lock "s" "c1" 100500000000 10 (a_session ∷ [])).1).0
    ≡ acquired
unfolding acquire_session_lock
taken_early = refl

-- An offset without a limit.
no_limit :
    list_sessions
      (record { user_id = "ada"; project = ""; status = ""; since = none; limit = 0; offset = 1 })
      (a_session ∷ [])
    ≡ refused syntax_error
unfolding list_sessions
no_limit = refl
