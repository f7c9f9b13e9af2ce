-- ===== src/Compaction/Distinct.antt =====
-- Identifiers of turns: each once, also after sorting and cutting.
use modeltap.Prelude.{
  ℕ, ◌≡◌, refl, ◌∙◌, zero, suc, String, Bool, true, false, ◌||◌, List, [], ◌∷◌, map, take, drop,
  select, All, leb, arith, Bool-cases, inl, inr,
}
use modeltap.Prelude.Text.{str_eq, text_mem, is_distinct}
use text.Mathlib.TextEquality.{eq_iff}
use modeltap.Conversation.Types.{Turn}
use modeltap.Conversation.Table.{insert_by_sequence, sort_by_sequence}

abbrev pub ids : List Turn → List String
ids ts = map (λ t. t.id) ts

mem-select :
    (k : String) (p : Turn → Bool) (ts : List Turn)
    → text_mem k (ids ts) ≡ false
    → text_mem k (ids (select p ts)) ≡ false
mem-select k p [] h = h
mem-select k p (t ∷ ts) h = ground (arith, mem-select k p ts)

pub distinct-select :
    (p : Turn → Bool) (ts : List Turn)
    → is_distinct (ids ts) ≡ true
    → is_distinct (ids (select p ts)) ≡ true
distinct-select p [] h = h
distinct-select p (t ∷ ts) h = ground (arith, distinct-select p ts, mem-select t.id p ts)

mem-insert :
    (k : String) (t : Turn) (ts : List Turn)
    → text_mem k (ids (insert_by_sequence t ts)) ≡ (str_eq t.id k || text_mem k (ids ts))
unfolding insert_by_sequence
mem-insert k t [] = ground arith
mem-insert k t (u ∷ us) = ground (arith, mem-insert k t us)

mem-sort :
    (k : String) (ts : List Turn) → text_mem k (ids (sort_by_sequence ts)) ≡ text_mem k (ids ts)
unfolding sort_by_sequence
mem-sort k [] = refl
mem-sort k (t ∷ ts) = mem-insert k t (sort_by_sequence ts) ∙ ground (arith, mem-sort k ts)

distinct-insert :
    (t : Turn) (ts : List Turn)
    → text_mem t.id (ids ts) ≡ false
    → is_distinct (ids ts) ≡ true
    → is_distinct (ids (insert_by_sequence t ts)) ≡ true
unfolding insert_by_sequence
distinct-insert t [] out h = refl
distinct-insert t (u ∷ us) out h =
    ground (arith, distinct-insert t us, mem-insert u.id t us, eq_iff t.id u.id, eq_iff u.id t.id)

pub distinct-sort :
    (ts : List Turn) → is_distinct (ids ts) ≡ true → is_distinct (ids (sort_by_sequence ts)) ≡ true
unfolding sort_by_sequence
distinct-sort [] h = h
distinct-sort (t ∷ ts) h =
    distinct-insert t (sort_by_sequence ts) (mem-sort t.id ts ∙ ground arith)
      (distinct-sort ts (ground arith))

mem-take :
    (k : String) (n : ℕ) (ts : List Turn)
    → text_mem k (ids ts) ≡ false
    → text_mem k (ids (take n ts)) ≡ false
mem-take k zero ts h = refl
mem-take k (suc n) [] h = refl
mem-take k (suc n) (t ∷ ts) h = ground (arith, mem-take k n ts)

mem-drop :
    (k : String) (n : ℕ) (ts : List Turn)
    → text_mem k (ids ts) ≡ false
    → text_mem k (ids (drop n ts)) ≡ false
mem-drop k zero ts h = h
mem-drop k (suc n) [] h = refl
mem-drop k (suc n) (t ∷ ts) h = mem-drop k n ts (ground arith)

pub distinct-take :
    (n : ℕ) (ts : List Turn) → is_distinct (ids ts) ≡ true → is_distinct (ids (take n ts)) ≡ true
distinct-take zero ts h = refl
distinct-take (suc n) [] h = refl
distinct-take (suc n) (t ∷ ts) h = ground (arith, distinct-take n ts, mem-take t.id n ts)

-- What is cut off shares no identifier with what is left.
pub disjoint-cut :
    (n : ℕ) (ts : List Turn)
    → is_distinct (ids ts) ≡ true
    → All (λ t. text_mem t.id (ids (drop n ts)) ≡ false) (take n ts)
disjoint-cut zero ts h = tt
disjoint-cut (suc n) [] h = tt
disjoint-cut (suc n) (t ∷ ts) h =
    (mem-drop t.id n ts (ground arith), disjoint-cut n ts (ground arith))

module _ (P : Turn → Type 0) where
  All-insert : (t : Turn) (ts : List Turn) → P t → All P ts → All P (insert_by_sequence t ts)
  unfolding insert_by_sequence
  All-insert t [] p all = (p, tt)
  All-insert t (u ∷ us) p all = elim (Bool-cases (leb t.sequence u.sequence)) [
    | inl first ↦ rw (insert_by_sequence, first) (p, all)
    | inr later ↦ rw (insert_by_sequence, later) (all.0, All-insert t us p all.1)
  ]

  pub All-sort : (ts : List Turn) → All P ts → All P (sort_by_sequence ts)
  unfolding sort_by_sequence
  All-sort [] all = tt
  All-sort (t ∷ ts) all = All-insert t (sort_by_sequence ts) all.0 (All-sort ts all.1)

  pub All-take : (n : ℕ) (ts : List Turn) → All P ts → All P (take n ts)
  All-take zero ts all = tt
  All-take (suc n) [] all = tt
  All-take (suc n) (t ∷ ts) all = (all.0, All-take n ts all.1)

pub All-selected : (p : Turn → Bool) (ts : List Turn) → All (λ t. p t ≡ true) (select p ts)
All-selected p [] = tt
All-selected p (t ∷ ts) = elim (Bool-cases (p t)) [
  | inl passes ↦ rw (select, passes) (passes, All-selected p ts)
  | inr fails ↦ rw (select, fails) (All-selected p ts)
]
