-- ===== src/Conversation/Steps.antt =====
-- Every call keeps the conversation and the rows of its session in step.
use modeltap.Prelude.{
  ℕ, ◌≡◌, ◌≢◌, refl, ap, sym, ◌∙◌, ◌⊎◌, inl, inr, ◌+◌, String, true, false, List, [], ◌∷◌, ◌++◌,
  none, some, arith, Bool-cases, Option-cases, if◌then◌else◌,
}
use modeltap.Prelude.Text.{str_eq}
use mathlib.Core.Path.{subst}
use modeltap.Conversation.Types.{
  Message, TurnSubmit, AssistantResponse, SubmittedResult, TurnMetadata, Turn, Codec, IsCodec,
}
use modeltap.Conversation.State.{
  Conversation, message_to_turn, is_user, is_next, user_message, assistant_message, no_metadata,
  response_metadata, append_user_turn, append_assistant_turn, match_tool_result,
}
use modeltap.Conversation.Table.{create_turn}
use modeltap.Conversation.Live.{
  Live, Reply, accepted, invalid_params, persisted, submit_turn, complete_turn, handle_tool_result,
  Call, submits, completes, answers, step, is_written, steps, staged, finished,
}
use modeltap.Conversation.Records.{recovered}
use modeltap.Conversation.InStep.{
  InStep, after, persisted-InStep, recovered_user, recovered_assistant,
}

module _ (codec : Codec) (law : IsCodec codec) where
  unwritten :
      (t : Turn) (c : Conversation) (rows : List Turn)
      → create_turn t rows ≡ none
      → is_written (persisted t c rows).0 ≢ true
  unwritten t c rows fails h = ground (arith, fails)

  -- The turn is written, or the reply is an error.
  persisted-cases :
      (t : Turn) (c : Conversation) (rows : List Turn)
      → is_written (persisted t c rows).0 ≡ true
      → (rows' : List Turn) × create_turn t rows ≡ some rows'
        × persisted t c rows ≡ (accepted, record { conversation = c; rows = rows' })
  persisted-cases t c rows h = elim (Option-cases (create_turn t rows)) [
    | inl fails ↦ absurd (unwritten t c rows fails h)
    | inr (rows', ok) ↦ (rows', ok, rw (persisted, ok) refl)
  ]

  appended_user :
      (submit : TurnSubmit) (fresh : String) (now : ℕ) (c : Conversation)
      → is_next submit.sequence c.user_sequence ≡ true
      → append_user_turn codec submit fresh now c ≡ (
        some (
            message_to_turn codec
              (if str_eq submit.turn_id "" then fresh else submit.turn_id)
              c.session_id
              (c.storage_sequence + 1)
              (user_message submit)
              no_metadata
              now),
        after codec law (user_message submit) c,
      )
  unfolding append_user_turn
  appended_user submit fresh now c h =
      rw (append_user_turn, h, after, recovered_user codec law submit) refl

  stored-InStep :
      (id : String) (m : Message) (meta : TurnMetadata) (now : ℕ) (c : Conversation)
      (rows : List Turn) (out : Reply × Live)
      → InStep codec law (record { conversation = c; rows = rows })
      → out
        ≡ persisted
            (message_to_turn codec id c.session_id (c.storage_sequence + 1) m meta now)
            (after codec law m c)
            rows
      → is_written out.0 ≡ true
      → InStep codec law out.1
  stored-InStep id m meta now c rows out ok e h =
      let t = message_to_turn codec id c.session_id (c.storage_sequence + 1) m meta now in
      let (rows', made, is) =
        persisted-cases t (after codec law m c) rows (sym (ap (λ o. is_written o.0) e) ∙ h) in
      subst (λ o. InStep codec law o.1) (sym (e ∙ is))
        (persisted-InStep codec law id m meta now c rows rows' ok made)

  completed :
      (resp : AssistantResponse) (fresh : String) (now : ℕ) (l : Live)
      → complete_turn codec resp fresh now l
        ≡ persisted
            (message_to_turn codec fresh l.conversation.session_id
              (l.conversation.storage_sequence + 1)
              (assistant_message resp)
              (response_metadata codec resp)
              now)
            (after codec law (assistant_message resp) l.conversation)
            l.rows
  unfolding complete_turn append_assistant_turn
  completed resp fresh now l =
      let c = l.conversation in
      let t =
        message_to_turn codec fresh c.session_id (c.storage_sequence + 1) (assistant_message resp)
          (response_metadata codec resp) now in
      let same : c.user_sequence
          ≡ c.user_sequence
            + (if is_user (recovered codec (assistant_message resp)) then 1 else 0) =
        rw (recovered_assistant codec law resp) (omega arith) in
      ap
        (λ u.
          persisted t
            (record c {
              turns = c.turns ++ assistant_message resp ∷ [];
              user_sequence = u;
              storage_sequence = c.storage_sequence + 1;
            })
            l.rows)
        same

  pub submit_turn-next :
      (submit : TurnSubmit) (fresh : String) (now : ℕ) (l : Live)
      → is_next submit.sequence l.conversation.user_sequence ≡ true
      → submit_turn codec submit fresh now l
        ≡ persisted
            (message_to_turn codec
              (if str_eq submit.turn_id "" then fresh else submit.turn_id)
              l.conversation.session_id
              (l.conversation.storage_sequence + 1)
              (user_message submit)
              no_metadata
              now)
            (after codec law (user_message submit) l.conversation)
            l.rows
  unfolding submit_turn
  submit_turn-next submit fresh now l h =
      ap (λ p. finished p l.rows) (appended_user submit fresh now l.conversation h)

  refused_user :
      (submit : TurnSubmit) (fresh : String) (now : ℕ) (c : Conversation)
      → is_next submit.sequence c.user_sequence ≡ false
      → append_user_turn codec submit fresh now c ≡ (none, c)
  unfolding append_user_turn
  refused_user submit fresh now c h = rw (append_user_turn, h) refl

  submit_turn-refused :
      (submit : TurnSubmit) (fresh : String) (now : ℕ) (l : Live)
      → is_next submit.sequence l.conversation.user_sequence ≡ false
      → submit_turn codec submit fresh now l ≡ (invalid_params, l)
  unfolding submit_turn
  submit_turn-refused submit fresh now l h =
      ap (λ p. finished p l.rows) (refused_user submit fresh now l.conversation h)

  submit_turn-InStep :
      (submit : TurnSubmit) (fresh : String) (now : ℕ) (l : Live)
      → InStep codec law l
      → is_written (submit_turn codec submit fresh now l).0 ≡ true
      → InStep codec law (submit_turn codec submit fresh now l).1
  submit_turn-InStep submit fresh now l ok h =
      elim (Bool-cases (is_next submit.sequence l.conversation.user_sequence)) [
        | inl next ↦
            stored-InStep (if str_eq submit.turn_id "" then fresh else submit.turn_id)
              (user_message submit) no_metadata now l.conversation l.rows
              (submit_turn codec submit fresh now l) ok (submit_turn-next submit fresh now l next) h
        | inr other ↦ rw (submit_turn-refused submit fresh now l other) ok
      ]

  complete_turn-InStep :
      (resp : AssistantResponse) (fresh : String) (now : ℕ) (l : Live)
      → InStep codec law l
      → is_written (complete_turn codec resp fresh now l).0 ≡ true
      → InStep codec law (complete_turn codec resp fresh now l).1
  complete_turn-InStep resp fresh now l ok h =
      stored-InStep fresh (assistant_message resp) (response_metadata codec resp) now l.conversation
        l.rows (complete_turn codec resp fresh now l) ok (completed resp fresh now l) h

  handle_tool_result-cases :
      (req : SubmittedResult) (turn_id fresh : String) (now : ℕ) (l : Live)
      → (handle_tool_result codec req turn_id fresh now l ≡ (invalid_params, l))
        ⊎ (handle_tool_result codec req turn_id fresh now l
            ≡ submit_turn codec (staged codec req turn_id l.conversation) fresh now l)
  unfolding handle_tool_result
  handle_tool_result-cases req turn_id fresh now l =
      elim (Bool-cases (str_eq req.tool_call_id "")) [
        | inl missing ↦ inl (rw (handle_tool_result, missing) refl)
        | inr given ↦ elim (Option-cases (match_tool_result req.tool_call_id l.conversation)) [
          | inl unknown ↦ inl (rw (handle_tool_result, given, unknown) refl)
          | inr (tc, known) ↦ inr (rw (handle_tool_result, given, known) refl)
        ]
      ]

  handle_tool_result-InStep :
      (req : SubmittedResult) (turn_id fresh : String) (now : ℕ) (l : Live)
      → InStep codec law l
      → is_written (handle_tool_result codec req turn_id fresh now l).0 ≡ true
      → InStep codec law (handle_tool_result codec req turn_id fresh now l).1
  handle_tool_result-InStep req turn_id fresh now l ok h =
      elim (handle_tool_result-cases req turn_id fresh now l) [
        | inl refused ↦ subst (λ o. InStep codec law o.1) (sym refused) ok
        | inr done ↦
            let s = staged codec req turn_id l.conversation in
            subst (λ o. InStep codec law o.1) (sym done)
              (submit_turn-InStep s fresh now l ok (sym (ap (λ o. is_written o.0) done) ∙ h))
      ]

  step-InStep :
      (call : Call) (l : Live)
      → InStep codec law l
      → is_written (step codec call l).0 ≡ true
      → InStep codec law (step codec call l).1
  unfolding step
  step-InStep (submits submit fresh now) l ok h = submit_turn-InStep submit fresh now l ok h
  step-InStep (completes resp fresh now) l ok h = complete_turn-InStep resp fresh now l ok h
  step-InStep (answers req turn_id fresh now) l ok h =
      handle_tool_result-InStep req turn_id fresh now l ok h

  pub steps-InStep :
      (calls : List Call) (l l' : Live)
      → InStep codec law l
      → steps codec calls l ≡ some l'
      → InStep codec law l'
  unfolding steps
  steps-InStep [] l l' ok h = subst (InStep codec law) (ground arith) ok
  steps-InStep (call ∷ calls) l l' ok h = elim (Bool-cases (is_written (step codec call l).0)) [
    | inl written ↦
        steps-InStep calls (step codec call l).1 l' (step-InStep call l ok written)
          (ground (arith, h))
    | inr lost ↦ absurd (ground (arith, h))
  ]
