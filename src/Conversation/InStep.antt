-- ===== src/Conversation/InStep.antt =====
-- The conversation and the rows of its session tell the same; a written turn keeps them so.
use modeltap.Prelude.{
  select-none, select-snoc, ℕ, ◌≡◌, refl, ap, sym, ◌∙◌, inl, inr, ◌+◌, String, true, false, List,
  [], ◌∷◌, ◌++◌, none, some, map, length, length-append, select, any, arith, Bool-cases,
  Option-cases, if◌then◌else◌,
}
use modeltap.Prelude.Text.{str_eq, str_eq_iff}
use mathlib.Core.Path.{subst}
use text.Mathlib.TextPositions.{eq_refl}
use modeltap.Conversation.Types.{
  Message, TurnSubmit, AssistantResponse, TurnMetadata, Turn, Codec, IsCodec, kept,
}
use modeltap.Conversation.State.{
  Conversation, new_conversation, turn_to_message, message_to_turn, is_user, user_message,
  assistant_message,
}
use modeltap.Conversation.Table.{normalized_turn, create_turn, is_of}
use modeltap.Conversation.Live.{Live}
use modeltap.Conversation.Records.{recovered, Records, Records-snoc, count_users}

module _ (codec : Codec) (law : IsCodec codec) where
  -- The conversation and the rows of its session tell the same.
  pub record InStep (l : Live) : Type 0 where
    pub recorded :
        Records codec 1 (select (is_of l.conversation.session_id) l.rows) l.conversation.turns
    pub numbered : l.conversation.storage_sequence ≡ length l.conversation.turns
    pub counted :
        l.conversation.user_sequence ≡ count_users (map (recovered codec) l.conversation.turns)

  unmarshal-some : (m : Message) (raw : String) → codec.marshal m ≡ some raw → str_eq raw "" ≡ false
  unmarshal-some m raw h = elim (Bool-cases (str_eq raw "")) [
    | inl e ↦
        let lost : some (kept codec m) ≡ none =
          sym (law.round_trip m raw h) ∙ ap codec.unmarshal (str_eq_iff raw "" e) ∙ law.no_bytes in
        ground (arith, lost)
    | inr e ↦ e
  ]

  turn_to_message-normalized :
      (id s : String) (k : ℕ) (m : Message) (meta : TurnMetadata) (now : ℕ)
      → turn_to_message codec (normalized_turn (message_to_turn codec id s k m meta now))
        ≡ some (recovered codec m)
  unfolding turn_to_message message_to_turn
  turn_to_message-normalized id s k m meta now = elim (Option-cases (codec.marshal m)) [
    | inl fails ↦ rw (recovered, fails) law.null
    | inr (raw, ok) ↦ rw (recovered, ok, unmarshal-some m raw ok) (law.round_trip m raw ok)
  ]

  created_rows :
      (t : Turn) (rows rows' : List Turn)
      → create_turn t rows ≡ some rows'
      → rows' ≡ rows ++ normalized_turn t ∷ []
  unfolding create_turn
  created_rows t rows rows' h = ground arith

  select-created :
      (s : String) (t : Turn) (rows rows' : List Turn)
      → t.session_id ≡ s
      → create_turn t rows ≡ some rows'
      → select (is_of s) rows' ≡ select (is_of s) rows ++ normalized_turn t ∷ []
  select-created s t rows rows' own h =
      rw (created_rows t rows rows' h, select-snoc (is_of s) rows (normalized_turn t), own, eq_refl)
        refl

  counted-snoc :
      (ms : List Message) (m : Message)
      → count_users (map (recovered codec) (ms ++ m ∷ []))
        ≡ count_users (map (recovered codec) ms) + (if is_user (recovered codec m) then 1 else 0)
  unfolding count_users
  counted-snoc [] m = omega arith
  counted-snoc (n ∷ ms) m = omega (arith, counted-snoc ms m)

  abbrev pub after : Message → Conversation → Conversation
  after m c = record c {
    turns = c.turns ++ m ∷ [];
    user_sequence = c.user_sequence + (if is_user (recovered codec m) then 1 else 0);
    storage_sequence = c.storage_sequence + 1;
  }

  pub persisted-InStep :
      (id : String) (m : Message) (meta : TurnMetadata) (now : ℕ) (c : Conversation)
      (rows rows' : List Turn)
      → InStep (record { conversation = c; rows = rows })
      → create_turn (message_to_turn codec id c.session_id (c.storage_sequence + 1) m meta now) rows
        ≡ some rows'
      → InStep (record { conversation = after m c; rows = rows' })
  unfolding message_to_turn
  persisted-InStep id m meta now c rows rows' ok h =
      let t = message_to_turn codec id c.session_id (c.storage_sequence + 1) m meta now in
      record {
        recorded =
            subst (λ ts. Records codec 1 ts (c.turns ++ m ∷ []))
              (sym (select-created c.session_id t rows rows' refl h))
              (Records-snoc codec 1 (select (is_of c.session_id) rows) c.turns (normalized_turn t) m
                ok.recorded
                (
                  omega (arith, ok.numbered),
                  turn_to_message-normalized id c.session_id (c.storage_sequence + 1) m meta now,
                ));
        numbered = omega (arith, ok.numbered, length-append c.turns (m ∷ []));
        counted = omega (arith, ok.counted, counted-snoc c.turns m);
      }

  pub empty_conversation-InStep :
      (s : String) (rows : List Turn)
      → any (is_of s) rows ≡ false
      → InStep (record { conversation = new_conversation s; rows = rows })
  unfolding count_users
  empty_conversation-InStep s rows h = record {
    recorded = subst (λ ts. Records codec 1 ts []) (sym (select-none (is_of s) rows h)) tt;
    numbered = refl;
    counted = refl;
  }

  pub recovered_user :
      (submit : TurnSubmit) → is_user (recovered codec (user_message submit)) ≡ true
  recovered_user submit = elim (Option-cases (codec.marshal (user_message submit))) [
    | inl fails ↦ absurd (law.plain (user_message submit) refl fails)
    | inr (raw, ok) ↦ rw (recovered, ok) refl
  ]

  pub recovered_assistant :
      (resp : AssistantResponse) → is_user (recovered codec (assistant_message resp)) ≡ false
  recovered_assistant resp = elim (Option-cases (codec.marshal (assistant_message resp))) [
    | inl fails ↦ rw (recovered, fails) refl
    | inr (raw, ok) ↦ rw (recovered, ok) refl
  ]
