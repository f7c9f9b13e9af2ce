-- ===== src/Sessions/HandlerTests.antt =====
-- The session handlers at concrete inputs.
use modeltap.Prelude.{
  ℕ, ◌+◌, ◌≡◌, refl, ap, ◌∙◌, String, true, false, [], ◌∷◌, some, map, inl, inr, Bool-cases, arith,
}
use Prim.Native.Char.{code}
use text.Mathlib.TextLemmas.{cons-append}
use modeltap.Prelude.Int.{pos}
use modeltap.Prelude.Text.{◌<>◌, str_eq, str_eq_iff, decimal, tagged-injective}
use modeltap.Conversation.Types.{Turn, TurnSubmit}
use modeltap.Conversation.State.{new_conversation, user_message, message_to_turn, no_metadata}
use modeltap.Conversation.Table.{normalized_turn, create_turn}
use modeltap.Conversation.Live.{Live, submits, steps}
use modeltap.Conversation.Records.{recovered}
use modeltap.Conversation.Samples.{a_codec, a_codec-IsCodec}
use modeltap.Sessions.Table.{Session, find_session}
use modeltap.Sessions.Locks.{acquire_session_lock}
use modeltap.Sessions.Active.{SessionServer, Conn, session_lock_ttl}
use modeltap.Sessions.Handlers.{
  refused, session_missing, session_locked, fresh_session, granted_session, handle_session_resume,
  handle_session_clear,
}
use modeltap.Sessions.Copy.{handle_session_fork}
use modeltap.Sessions.Fork.{IsForked, handle_session_fork-IsForked}
use modeltap.Sessions.Denied.{handlers-IsHidden}
use modeltap.Sessions.Resume.{conversation_of, handle_session_resume-steps}

abbrev mine : Session
mine = fresh_session "s1" "ann" "/home" 5

abbrev ann : Conn
ann = record { id = "c1"; user_id = "ann"; session_id = ""; project = "/home"; releasing = true }

abbrev bob : Conn
bob = record ann { id = "c2"; user_id = "bob" }

abbrev a_turn : Turn
a_turn = record {
  id = "x1";
  session_id = "s1";
  sequence = 1;
  role = "user";
  content = some "{}";
  model = "";
  provider = "";
  input_tokens = 0;
  output_tokens = 0;
  cost = 0;
  latency_ms = 0;
  tool_calls = some "[]";
  files_touched = [];
  files_modified = [];
  compacted = false;
  compacted_summary = "";
  original_turns = [];
  created_at = 4;
}

abbrev server : SessionServer
server = record { sessions = mine ∷ []; turns = a_turn ∷ []; events = []; active = [] }

-- A second connection of the same user.
locked_out :
    (handle_session_resume a_codec 7
      (some ("s1", "/home"))
      (record ann { id = "c9" })
      (handle_session_resume a_codec 6
        (some ("s1", "/home"))
        ann
        (record server { turns = [] })).2).0
    ≡ refused session_locked
unfolding handle_session_resume
locked_out = refl

abbrev fresh : ℕ → String
fresh n = "t" <> decimal n

fresh-injective : (m n : ℕ) → str_eq (fresh m) (fresh n) ≡ true → m ≡ n
fresh-injective m n e = tagged-injective "t" m n (str_eq_iff (fresh m) (fresh n) e)

abbrev first_code : String → ℕ
first_code String.[] = 0
first_code (String.◌∷◌ c s) = code c

unused : (m : ℕ) → str_eq "x1" (fresh m) ≡ false
unused m = elim (Bool-cases (str_eq "x1" (fresh m))) [
  | inl e ↦
      let p : ◌≡◌ {A = ℕ} 120 116 =
        ap first_code (str_eq_iff "x1" (fresh m) e ∙ cons-append "t" "" (decimal m)) in
      absurd (omega (arith, p))
  | inr e ↦ e
]

handle_session_fork-IsForked_example :
    IsForked fresh "s2" 9 "s1" ann server mine
      (handle_session_fork fresh "s2" 9 (some "s1") ann server)
handle_session_fork-IsForked_example =
    handle_session_fork-IsForked fresh "s2" 9 "s1" ann server mine (unfold granted_session in refl)
      refl refl fresh-injective (λ m. rw (unused m))

handlers-IsHidden_example :
    (handle_session_resume a_codec 9 (some ("s1", "/home")) bob server
      ≡ (refused session_missing, bob, server))
    × (handle_session_clear 9 (some "s1") bob server ≡ (refused session_missing, bob, server))
    × (handle_session_fork fresh "s2" 9 (some "s1") bob server
        ≡ (refused session_missing, bob, server))
handlers-IsHidden_example =
    handlers-IsHidden a_codec fresh "s2" "/home" "s1" 9 bob server refl
      (inr (mine, unfold find_session in refl, refl, refl, refl))

abbrev hello : TurnSubmit
hello = record {
  turn_id = "t1";
  sequence = pos 1;
  content = "hello";
  attachments = [];
  tool_results = [];
}

-- The table after one submission, and what the conversation holds.
abbrev used : Live
used = record {
  conversation = record (new_conversation "s1") {
    turns = user_message hello ∷ [];
    user_sequence = 1;
    storage_sequence = 1;
  };
  rows =
      normalized_turn (message_to_turn a_codec "t1" "s1" 1 (user_message hello) no_metadata 10)
      ∷ [];
}

handle_session_resume-steps_example :
    conversation_of "s1"
      (handle_session_resume a_codec 9
        (some ("s1", "/home"))
        ann
        (record server { turns = used.rows })).2
    ≡ some (record used.conversation { turns = map (recovered a_codec) used.conversation.turns })
unfolding create_turn
handle_session_resume-steps_example =
    (handle_session_resume-steps a_codec a_codec-IsCodec (submits hello "f1" 10 ∷ []) [] used
      "/home" 9 ann (record server { turns = used.rows }) mine
      (record mine {
        lock_owner = some "c1";
        lock_expires_at = some (9 + session_lock_ttl);
        updated_at = 9;
      }
        ∷ [])
      refl (unfold steps in refl) (omega arith) refl (unfold granted_session in refl)
      (unfold acquire_session_lock in refl) refl).2
