-- ===== src/Sessions/Fork.antt =====
-- The turns of a forked session (internal/runtime/session.go, handleSessionFork).
use modeltap.Prelude.{
  ℕ, suc, ◌≤◌, ◌≡◌, refl, sym, ap, ◌∙◌, String, true, false, List, [], ◌∷◌, ◌++◌, append_assoc,
  append_nil, any-snoc, select-append, select-none, length-take-le, some, inl, inr, Bool-cases, any,
  select, take, take-all, length, arith,
}
use mathlib.Core.Path.{subst}
use text.Mathlib.TextEquality.{eq_iff}
use modeltap.Prelude.Text.{str_eq}
use modeltap.Conversation.Types.{Turn}
use modeltap.Conversation.Table.{create_turn, is_of, sort_by_sequence, list_turns, normalized_turn}
use modeltap.Conversation.Order.{IsSorted, sort-IsSorted, take-IsSorted, sort-of_IsSorted}
use modeltap.Sessions.Table.{Session, create_session, normalized_session}
use modeltap.Sessions.Active.{SessionServer, Conn}
use modeltap.Sessions.Handlers.{forked, Answer, granted_session, found}
use modeltap.Sessions.Copy.{
  forked_session, copied_turn, copy_turns, fork_event, handle_session_fork,
}

module _ (fresh : ℕ → String) (new : String) (now : ℕ) where
  -- The rows that a fork writes.
  abbrev pub copies : ℕ → List Turn → List Turn
  copies n [] = []
  copies n (t ∷ ts) = normalized_turn (copied_turn (fresh n) new now t) ∷ copies (suc n) ts

  copies-IsSorted : (n : ℕ) (ts : List Turn) → IsSorted ts → IsSorted (copies n ts)
  copies-IsSorted n [] s = tt
  copies-IsSorted n (t ∷ []) s = (tt, tt)
  copies-IsSorted n (t ∷ u ∷ ts) s = (s.0, copies-IsSorted (suc n) (u ∷ ts) s.1)

  length-copies : (n : ℕ) (ts : List Turn) → length (copies n ts) ≡ length ts
  length-copies n [] = refl
  length-copies n (t ∷ ts) = ap suc (length-copies (suc n) ts)

  select-copies :
      (n : ℕ) (ts : List Turn)
      → str_eq new new ≡ true
      → select (is_of new) (copies n ts) ≡ copies n ts
  select-copies n [] e = refl
  select-copies n (t ∷ ts) e =
      rw e (
        ap (λ l. normalized_turn (copied_turn (fresh n) new now t) ∷ l)
          (select-copies (suc n) ts e))

  select-copies_other :
      (other : String) (n : ℕ) (ts : List Turn)
      → str_eq new other ≡ false
      → select (is_of other) (copies n ts) ≡ []
  select-copies_other other n [] e = refl
  select-copies_other other n (t ∷ ts) e = rw e (select-copies_other other (suc n) ts e)

  copy_turns-fresh :
      ((m n : ℕ) → str_eq (fresh m) (fresh n) ≡ true → m ≡ n)
      → (n : ℕ) (ts rows : List Turn)
      → ((m : ℕ) → n ≤ m → any (λ r. str_eq r.id (fresh m)) rows ≡ false)
      → copy_turns fresh new now n ts rows ≡ (true, rows ++ copies n ts)
  unfolding copy_turns create_turn
  copy_turns-fresh inj n [] rows h = ap (λ l. (true, l)) (sym (append_nil rows))
  copy_turns-fresh inj n (t ∷ ts) rows h =
      let x = normalized_turn (copied_turn (fresh n) new now t) in
      let later : (m : ℕ) → suc n ≤ m → any (λ r. str_eq r.id (fresh m)) (rows ++ x ∷ []) ≡ false =
        λ m l. any-snoc (λ r. str_eq r.id (fresh m)) rows x (h m (omega arith)) (differs n m l) in
      rw (h n (omega arith), copy_turns, create_turn)
        (copy_turns-fresh inj (suc n) ts (rows ++ x ∷ []) later
          ∙ ap (λ l. (true, l)) (append_assoc rows (x ∷ []) (copies (suc n) ts)))
    where
      differs : (n m : ℕ) → suc n ≤ m → str_eq (fresh n) (fresh m) ≡ false
      differs n m l = elim (Bool-cases (str_eq (fresh n) (fresh m))) [
        | inl e ↦ absurd (omega (arith, inj n m e))
        | inr e ↦ e
      ]

-- A session, its rows and the copies of them.
module _ (fresh : ℕ → String) (new : String) (now : ℕ) (id : String) (conn : Conn)
    (sv : SessionServer) (src : Session) where
  abbrev pub expected_copies : List Turn
  expected_copies = copies fresh new now 0 (list_turns src.id sv.turns)

  abbrev pub after_fork : Answer
  after_fork = (
    forked new src.id,
    conn,
    record sv {
      sessions = sv.sessions ++ normalized_session (forked_session new now src) ∷ [];
      turns = sv.turns ++ expected_copies;
      events = sv.events ++ fork_event src.id new now ∷ [];
    },
  )

  fork-after_fork :
      granted_session (some id) conn sv ≡ found src
      → any (λ r. str_eq r.id new) sv.sessions ≡ false
      → ((m n : ℕ) → str_eq (fresh m) (fresh n) ≡ true → m ≡ n)
      → ((m : ℕ) → any (λ r. str_eq r.id (fresh m)) sv.turns ≡ false)
      → handle_session_fork fresh new now (some id) conn sv ≡ after_fork
  unfolding handle_session_fork create_session
  fork-after_fork g free inj unused = rw (
    g,
    handle_session_fork,
    free,
    create_session,
    copy_turns-fresh fresh new now inj 0 (list_turns src.id sv.turns) sv.turns (λ m l. unused m),
  )

  list_turns-copies :
      any (is_of new) sv.turns ≡ false
      → list_turns new (sv.turns ++ expected_copies) ≡ expected_copies
  unfolding list_turns
  list_turns-copies none_yet =
      let ts : List Turn = list_turns src.id sv.turns in
      let cs : List Turn = expected_copies in
      let own : select (is_of new) (sv.turns ++ cs) ≡ cs =
        select-append (is_of new) sv.turns cs
        ∙ (ap (λ l. l ++ select (is_of new) cs) (select-none (is_of new) sv.turns none_yet)
            ∙ select-copies fresh new now 0 ts ((eq_iff new new).1 refl)) in
      let sorted : IsSorted cs = copies-IsSorted fresh new now 0 ts (
        take-IsSorted 2000 (sort_by_sequence (select (is_of src.id) sv.turns))
          (sort-IsSorted (select (is_of src.id) sv.turns))) in
      let few : length cs ≤ 2000 = omega (
        arith,
        length-copies fresh new now 0 ts,
        length-take-le 2000 (sort_by_sequence (select (is_of src.id) sv.turns)),
      ) in
      ap (λ l. take 2000 (sort_by_sequence l)) own
      ∙ (ap (take 2000) (sort-of_IsSorted cs sorted) ∙ take-all 2000 cs few)

  list_turns-other :
      (other : String)
      → str_eq new other ≡ false
      → list_turns other (sv.turns ++ expected_copies) ≡ list_turns other sv.turns
  unfolding list_turns
  list_turns-other other n =
      let ts : List Turn = list_turns src.id sv.turns in
      ap (λ l. take 2000 (sort_by_sequence l))
        (select-append (is_of other) sv.turns expected_copies
          ∙ (ap (λ l. select (is_of other) sv.turns ++ l)
                (select-copies_other fresh new now other 0 ts n)
              ∙ append_nil (select (is_of other) sv.turns)))

  -- The outcome of a fork.
  pub record IsForked (a : Answer) : Type 0 where
    pub reply : a.0 ≡ forked new src.id
    pub copied : list_turns new a.2.turns ≡ expected_copies
    pub others :
        (other : String)
        → str_eq new other ≡ false
        → list_turns other a.2.turns ≡ list_turns other sv.turns
    pub row : a.2.sessions ≡ sv.sessions ++ normalized_session (forked_session new now src) ∷ []
    pub active_kept : a.2.active ≡ sv.active

  -- Where a connection may see a session, and the new session's identifier and those of the new
  -- turns are unused and distinct, session.fork succeeds: the new session's turns are copies of the
  -- listed turns of the source, in the same order and with the same numbers, the turns of every
  -- other session are as they were, and the new row is an active, unlocked session of the owner.
  pub handle_session_fork-IsForked :
      granted_session (some id) conn sv ≡ found src
      → any (λ r. str_eq r.id new) sv.sessions ≡ false
      → any (is_of new) sv.turns ≡ false
      → ((m n : ℕ) → str_eq (fresh m) (fresh n) ≡ true → m ≡ n)
      → ((m : ℕ) → any (λ r. str_eq r.id (fresh m)) sv.turns ≡ false)
      → IsForked (handle_session_fork fresh new now (some id) conn sv)
  handle_session_fork-IsForked g free none_yet inj unused =
      subst IsForked (sym (fork-after_fork g free inj unused)) (record {
        reply = refl;
        copied = list_turns-copies none_yet;
        others = list_turns-other;
        row = refl;
        active_kept = refl;
      })
