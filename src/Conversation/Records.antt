-- ===== src/Conversation/Records.antt =====
-- The rows of a session as a record of its messages.
use modeltap.Prelude.{
  append_nil, append_assoc, ℕ, ◌≡◌, refl, ap, sym, ◌∙◌, ◌+◌, ◌≤◌, String, List, [], ◌∷◌, ◌++◌, none,
  some, map, length, arith, if◌then◌else◌,
}
use mathlib.Core.Path.{subst}
use modeltap.Conversation.Types.{Message, zero_message, Turn, Codec, kept}
use modeltap.Conversation.State.{
  Conversation, turn_to_message, is_user, restored_message, restore_loop,
}
use modeltap.Conversation.Table.{insert_by_sequence, sort_by_sequence}

unfoldable pub count_users : List Message → ℕ
count_users [] = 0
count_users (m ∷ ms) = (if is_user m then 1 else 0) + count_users ms

module _ (codec : Codec) where
  -- What a stored message comes back as; one that does not marshal is stored as `null`.
  abbrev pub recovered : Message → Message
  recovered m = elim (codec.marshal m) [ none ↦ zero_message | some raw ↦ kept codec m ]

  abbrev pub IsRecord : Turn → ℕ → Message → Type 0
  IsRecord t k m = t.sequence ≡ k × turn_to_message codec t ≡ some (recovered m)

  -- Rows numbered from `k`, one for each message.
  abbrev pub Records : ℕ → List Turn → List Message → Type 0
  Records k [] [] = Unit
  Records k [] (m ∷ ms) = ⊥
  Records k (t ∷ ts) [] = ⊥
  Records k (t ∷ ts) (m ∷ ms) = IsRecord t k m × Records (k + 1) ts ms

  pub Records-snoc :
      (k : ℕ) (ts : List Turn) (ms : List Message) (t : Turn) (m : Message)
      → Records k ts ms
      → IsRecord t (k + length ms) m
      → Records k (ts ++ t ∷ []) (ms ++ m ∷ [])
  Records-snoc k [] [] t m r new = (subst (λ j. IsRecord t j m) (omega arith) new, tt)
  Records-snoc k [] (n ∷ ms) t m r new = absurd r
  Records-snoc k (u ∷ ts) [] t m r new = absurd r
  Records-snoc k (u ∷ ts) (n ∷ ms) t m r new =
      (r.0, Records-snoc (k + 1) ts ms t m r.1 (subst (λ j. IsRecord t j m) (omega arith) new))

  -- The rows are in the order in which they are read.
  insert-Records :
      (k : ℕ) (t : Turn) (ts : List Turn) (ms : List Message)
      → t.sequence ≤ k
      → Records k ts ms
      → insert_by_sequence t ts ≡ t ∷ ts
  unfolding insert_by_sequence
  insert-Records k t [] ms h r = refl
  insert-Records k t (u ∷ ts) [] h r = absurd r
  insert-Records k t (u ∷ ts) (m ∷ ms) h r = ground (arith, r.0.0)

  pub sort-Records :
      (k : ℕ) (ts : List Turn) (ms : List Message) → Records k ts ms → sort_by_sequence ts ≡ ts
  unfolding sort_by_sequence
  sort-Records k [] ms r = refl
  sort-Records k (t ∷ ts) [] r = absurd r
  sort-Records k (t ∷ ts) (m ∷ ms) r =
      ap (insert_by_sequence t) (sort-Records (k + 1) ts ms r.1)
      ∙ insert-Records (k + 1) t ts ms (omega (arith, r.0.0)) r.1

  pub length-Records :
      (k : ℕ) (ts : List Turn) (ms : List Message) → Records k ts ms → length ts ≡ length ms
  length-Records k [] [] r = refl
  length-Records k [] (m ∷ ms) r = absurd r
  length-Records k (t ∷ ts) [] r = absurd r
  length-Records k (t ∷ ts) (m ∷ ms) r = omega (arith, length-Records (k + 1) ts ms r.1)

  pub same_conversation :
      (s : String) {ts ts' : List Message} {u u' q q' : ℕ}
      → ts ≡ ts'
      → u ≡ u'
      → q ≡ q'
      → Path Conversation
          (record { session_id = s; turns = ts; user_sequence = u; storage_sequence = q })
          (record { session_id = s; turns = ts'; user_sequence = u'; storage_sequence = q' })
  same_conversation s e f g = rw (e, f, g) refl

  restored-sequences :
      (k : ℕ) (t : Turn) (m : Message) (c : Conversation)
      → t.sequence ≡ k
      → c.storage_sequence + 1 ≡ k
      → restored_message codec t m c ≡ record c {
        turns = c.turns ++ m ∷ [];
        user_sequence = c.user_sequence + (if is_user m then 1 else 0);
        storage_sequence = c.storage_sequence + 1;
      }
  restored-sequences k t m c h e = same_conversation c.session_id refl (ground arith) (ground arith)

  -- Reading the rows back.
  pub restore_loop-Records :
      (k : ℕ) (ts : List Turn) (ms : List Message) (c : Conversation)
      → Records k ts ms
      → c.storage_sequence + 1 ≡ k
      → restore_loop codec ts c ≡ (
        none,
        record c {
          turns = c.turns ++ map recovered ms;
          user_sequence = c.user_sequence + count_users (map recovered ms);
          storage_sequence = c.storage_sequence + length ms;
        },
      )
  unfolding restore_loop count_users
  restore_loop-Records k [] [] c r h =
      ap (λ d. (none, d))
        (same_conversation c.session_id (sym (append_nil c.turns)) (omega arith) (omega arith))
  restore_loop-Records k [] (m ∷ ms) c r h = absurd r
  restore_loop-Records k (t ∷ ts) [] c r h = absurd r
  restore_loop-Records k (t ∷ ts) (m ∷ ms) c r h =
      rw (restore_loop, r.0.1, restored-sequences k t (recovered m) c r.0.0 h)
        (restore_loop-Records (k + 1) ts ms _ r.1 (omega (arith, h))
          ∙ ap (λ d. (none, d))
              (same_conversation c.session_id
                (append_assoc c.turns (recovered m ∷ []) (map recovered ms)) (omega arith)
                (omega arith)))
