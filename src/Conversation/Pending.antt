-- ===== src/Conversation/Pending.antt =====
-- The tool calls that wait for a result.
use modeltap.Prelude.{
  append_nil, ℕ, ◌≡◌, refl, ap, sym, ◌∙◌, ◌+◌, inl, inr, String, true, false, not, ◌||◌, List, [],
  ◌∷◌, ◌++◌, Option, none, some, map, select, flat_map-append, arith, Option-cases,
}
use modeltap.Prelude.Text.{str_eq, text_mem}
use modeltap.Prelude.Int.{pos}
use text.Mathlib.TextEquality.{eq_iff}
use modeltap.Truncation.Types.{ToolCall}
use modeltap.Conversation.Types.{Message, SubmittedResult, Turn, Codec}
use modeltap.Conversation.State.{
  Conversation, last_assistant, is_assistant, resolved, pending_tool_calls, match_tool_result,
  find_call, user_message, is_next, append_user_turn,
}
use modeltap.Conversation.Live.{
  Live, accepted, invalid_params, persisted, submit_turn, staged, handle_tool_result,
}
use modeltap.Conversation.Table.{create_turn}

abbrev extended :
    Message → Option (List ToolCall × List Message) → Option (List ToolCall × List Message)
extended m none = none
extended m (some found) = some (found.0, found.1 ++ m ∷ [])

last_first :
    (n : Message) (ms : List Message) (m : Message)
    → last_assistant ms ≡ none
    → last_assistant (ms ++ m ∷ []) ≡ none
    → last_assistant (n ∷ (ms ++ m ∷ [])) ≡ extended m (last_assistant (n ∷ ms))
unfolding last_assistant
last_first n ms m h k = ground (arith, h, k)

last_later :
    (n : Message) (ms : List Message) (m : Message) (found : List ToolCall × List Message)
    → last_assistant ms ≡ some found
    → last_assistant (ms ++ m ∷ []) ≡ some (found.0, found.1 ++ m ∷ [])
    → last_assistant (n ∷ (ms ++ m ∷ [])) ≡ extended m (last_assistant (n ∷ ms))
unfolding last_assistant
last_later n ms m found h k = ground (arith, h, k)

last_assistant-snoc :
    (ms : List Message) (m : Message)
    → is_assistant m ≡ false
    → last_assistant (ms ++ m ∷ []) ≡ extended m (last_assistant ms)
unfolding last_assistant
last_assistant-snoc [] m h = ground arith
last_assistant-snoc (n ∷ ms) m h = elim (Option-cases (last_assistant ms)) [
  | inl missing ↦ last_first n ms m missing (last_assistant-snoc ms m h ∙ ap (extended m) missing)
  | inr (found, at) ↦ last_later n ms m found at (last_assistant-snoc ms m h ∙ ap (extended m) at)
]

abbrev ids : Message → List String
ids m = map (λ r. r.tool_call_id) m.tool_results

mem-append :
    (k : String) (xs ys : List String) → text_mem k (xs ++ ys) ≡ (text_mem k xs || text_mem k ys)
mem-append k [] ys = refl
mem-append k (x ∷ xs) ys = ground (arith, mem-append k xs ys)

-- The calls that some identifiers leave.
abbrev unanswered : List String → List ToolCall → List ToolCall
unanswered answered calls = select (λ tc. not (text_mem tc.id answered)) calls

unanswered-append :
    (xs ys : List String) (calls : List ToolCall)
    → unanswered (xs ++ ys) calls ≡ unanswered ys (unanswered xs calls)
unanswered-append xs ys [] = refl
unanswered-append xs ys (tc ∷ tcs) =
    ground (arith, unanswered-append xs ys tcs, mem-append tc.id xs ys)

resolved-snoc : (ms : List Message) (m : Message) → resolved (ms ++ m ∷ []) ≡ resolved ms ++ ids m
resolved-snoc ms m =
    flat_map-append ids ms (m ∷ []) ∙ ap (λ l. resolved ms ++ l) (append_nil (ids m))

-- A message that is no assistant's answers the calls that its results name.
pending_tool_calls-snoc :
    (c : Conversation) (m : Message) (u q : ℕ)
    → is_assistant m ≡ false
    → pending_tool_calls (record {
      session_id = c.session_id;
      turns = c.turns ++ m ∷ [];
      user_sequence = u;
      storage_sequence = q;
    })
      ≡ unanswered (ids m) (pending_tool_calls c)
unfolding pending_tool_calls
pending_tool_calls-snoc c m u q h = elim (Option-cases (last_assistant c.turns)) [
  | inl missing ↦ rw (pending_tool_calls, last_assistant-snoc c.turns m h, missing) refl
  | inr (found, at) ↦
      rw (pending_tool_calls, last_assistant-snoc c.turns m h, at)
        (rw (resolved-snoc found.1 m) (unanswered-append (resolved found.1) (ids m) found.0))
]

find_call-unanswered :
    (id : String) (calls : List ToolCall) → find_call id (unanswered (id ∷ []) calls) ≡ none
find_call-unanswered id [] = refl
find_call-unanswered id (tc ∷ tcs) =
    ground (arith, find_call-unanswered id tcs, eq_iff tc.id id, eq_iff id tc.id)

persisted-conversation :
    (t : Turn) (c : Conversation) (rows : List Turn) → (persisted t c rows).1.conversation ≡ c
persisted-conversation t c rows = elim (Option-cases (create_turn t rows)) [
  | inl fails ↦ rw (persisted, fails) refl
  | inr (rows', ok) ↦ rw (persisted, ok) refl
]

is_next-suc : (n : ℕ) → is_next (pos (n + 1)) n ≡ true
is_next-suc n = ground arith

unanswered-one :
    (id : String) (calls : List ToolCall)
    → unanswered (id ∷ []) calls ≡ select (λ tc. not (str_eq id tc.id)) calls
unanswered-one id [] = refl
unanswered-one id (tc ∷ tcs) = ground (arith, unanswered-one id tcs)

module _ (codec : Codec) (req : SubmittedResult) (turn_id fresh : String) (now : ℕ) (l : Live) where
  abbrev answered : Conversation
  answered = record l.conversation {
    turns = l.conversation.turns ++ user_message (staged codec req turn_id l.conversation) ∷ [];
    user_sequence = l.conversation.user_sequence + 1;
    storage_sequence = l.conversation.storage_sequence + 1;
  }

  staged-appended :
      (submit_turn codec (staged codec req turn_id l.conversation) fresh now l).1.conversation
      ≡ answered
  unfolding submit_turn append_user_turn
  staged-appended =
      rw (submit_turn, append_user_turn, is_next-suc) (persisted-conversation _ answered l.rows)

  accepted-submits :
      (l' : Live)
      → handle_tool_result codec req turn_id fresh now l ≡ (accepted, l')
      → submit_turn codec (staged codec req turn_id l.conversation) fresh now l ≡ (accepted, l')
  unfolding handle_tool_result
  accepted-submits l' h = ground (arith, h)

  accepted-answered :
      (l' : Live)
      → handle_tool_result codec req turn_id fresh now l ≡ (accepted, l')
      → l'.conversation ≡ answered
  accepted-answered l' h =
      sym (ap (λ o. o.1.conversation) (accepted-submits l' h)) ∙ staged-appended

  unmatched :
      (again : SubmittedResult) (turn_id' fresh' : String) (now' : ℕ) (l' : Live)
      → find_call again.tool_call_id (pending_tool_calls l'.conversation) ≡ none
      → handle_tool_result codec again turn_id' fresh' now' l' ≡ (invalid_params, l')
  unfolding handle_tool_result match_tool_result
  unmatched again turn_id' fresh' now' l' h =
      rw (handle_tool_result, match_tool_result, h) (ground arith)

  -- A result that is accepted answers its call and no other, and the call is not answered again.
  pub handle_tool_result-once :
      (l' : Live) (again : SubmittedResult) (turn_id' fresh' : String) (now' : ℕ)
      → handle_tool_result codec req turn_id fresh now l ≡ (accepted, l')
      → again.tool_call_id ≡ req.tool_call_id
      → pending_tool_calls l'.conversation
          ≡ select (λ tc. not (str_eq req.tool_call_id tc.id)) (pending_tool_calls l.conversation)
        × handle_tool_result codec again turn_id' fresh' now' l' ≡ (invalid_params, l')
  handle_tool_result-once l' again turn_id' fresh' now' h same =
      let left =
        ap pending_tool_calls (accepted-answered l' h)
        ∙ pending_tool_calls-snoc l.conversation
            (user_message (staged codec req turn_id l.conversation))
            (l.conversation.user_sequence + 1) (l.conversation.storage_sequence + 1) refl in
      (
        left ∙ unanswered-one req.tool_call_id (pending_tool_calls l.conversation),
        unmatched again turn_id' fresh' now' l' (
            ap (find_call again.tool_call_id) left
            ∙ ap
                (λ i.
                  find_call i
                    (unanswered (req.tool_call_id ∷ []) (pending_tool_calls l.conversation)))
                same
            ∙ find_call-unanswered req.tool_call_id (pending_tool_calls l.conversation)),
      )
