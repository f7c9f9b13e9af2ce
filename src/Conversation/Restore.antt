-- ===== src/Conversation/Restore.antt =====
-- A session that is resumed: the conversation that its rows give back.
use modeltap.Prelude.{
  take-all, ◌≡◌, refl, ap, ◌∙◌, ◌≤◌, String, false, List, none, some, map, length, select, any,
  arith,
}
use modeltap.Conversation.Types.{Turn, Codec, IsCodec}
use modeltap.Conversation.State.{new_conversation, restore_from_turns}
use modeltap.Conversation.Table.{is_of, list_turns, max_turns_per_list_call}
use modeltap.Conversation.Live.{Live, Call, steps}
use modeltap.Conversation.Records.{
  recovered, sort-Records, length-Records, restore_loop-Records, same_conversation,
}
use modeltap.Conversation.InStep.{InStep, empty_conversation-InStep}
use modeltap.Conversation.Steps.{steps-InStep}

module _ (codec : Codec) (law : IsCodec codec) where
  list_turns-InStep :
      (l : Live)
      → InStep codec law l
      → length l.conversation.turns ≤ max_turns_per_list_call
      → list_turns l.conversation.session_id l.rows
        ≡ select (is_of l.conversation.session_id) l.rows
  unfolding list_turns
  list_turns-InStep l ok few =
      let own = select (is_of l.conversation.session_id) l.rows in
      rw (sort-Records codec 1 own l.conversation.turns ok.recorded) (
        take-all 2000 own
          (omega (arith, few, length-Records codec 1 own l.conversation.turns ok.recorded)))

  restored-InStep :
      (l : Live)
      → InStep codec law l
      → length l.conversation.turns ≤ max_turns_per_list_call
      → restore_from_turns codec
          (list_turns l.conversation.session_id l.rows)
          (new_conversation l.conversation.session_id)
        ≡ (none, record l.conversation { turns = map (recovered codec) l.conversation.turns })
  unfolding restore_from_turns
  restored-InStep l ok few =
      let c = l.conversation in
      let own = select (is_of c.session_id) l.rows in
      rw (list_turns-InStep l ok few) (
        restore_loop-Records codec 1 own c.turns (new_conversation c.session_id) ok.recorded
          (omega arith)
        ∙ ap (λ d. (none, d))
            (same_conversation codec c.session_id refl (omega (arith, ok.counted))
              (omega (arith, ok.numbered))))

  -- After any calls on a new session whose rows were all written, a resume gives back the same
  -- messages, each as it survives its encoding, and the same two sequence numbers.
  pub restore_from_turns-steps :
      (calls : List Call) (session_id : String) (rows : List Turn) (l : Live)
      → any (is_of session_id) rows ≡ false
      → steps codec calls (record { conversation = new_conversation session_id; rows = rows })
        ≡ some l
      → length l.conversation.turns ≤ max_turns_per_list_call
      → restore_from_turns codec
          (list_turns l.conversation.session_id l.rows)
          (new_conversation l.conversation.session_id)
        ≡ (none, record l.conversation { turns = map (recovered codec) l.conversation.turns })
  restore_from_turns-steps calls session_id rows l new done few =
      restored-InStep l
        (steps-InStep codec law calls
          (record { conversation = new_conversation session_id; rows = rows }) l
          (empty_conversation-InStep codec law session_id rows new) done)
        few
