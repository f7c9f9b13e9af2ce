-- ===== src/Conversation/Order.antt =====
-- internal/storage/turns.go: what `ORDER BY sequence` gives.
use modeltap.Prelude.{
  ℕ, zero, suc, ◌≤◌, ◌≡◌, refl, ap, ◌∙◌, List, [], ◌∷◌, inl, inr, Bool-cases, take, leb, arith,
}
use modeltap.Conversation.Types.{Turn}
use modeltap.Conversation.Table.{insert_by_sequence, sort_by_sequence}

-- Rows in the order of their sequence numbers.
abbrev AtLeast : ℕ → List Turn → Type 0
AtLeast k [] = Unit
AtLeast k (t ∷ ts) = k ≤ t.sequence

abbrev pub IsSorted : List Turn → Type 0
IsSorted [] = Unit
IsSorted (t ∷ ts) = AtLeast t.sequence ts × IsSorted ts

insert-AtLeast :
    (k : ℕ) (t : Turn) (ts : List Turn)
    → k ≤ t.sequence
    → AtLeast k ts
    → AtLeast k (insert_by_sequence t ts)
unfolding insert_by_sequence
insert-AtLeast k t [] h a = h
insert-AtLeast k t (x ∷ ts) h a = elim (Bool-cases (leb t.sequence x.sequence)) [
  | inl e ↦ rw e h
  | inr e ↦ rw e a
]

insert-IsSorted : (t : Turn) (ts : List Turn) → IsSorted ts → IsSorted (insert_by_sequence t ts)
unfolding insert_by_sequence
insert-IsSorted t [] s = (tt, tt)
insert-IsSorted t (x ∷ ts) s = elim (Bool-cases (leb t.sequence x.sequence)) [
  | inl e ↦ rw e (ground arith, s)
  | inr e ↦ rw e (insert-AtLeast x.sequence t ts (ground arith) s.0, insert-IsSorted t ts s.1)
]

pub sort-IsSorted : (ts : List Turn) → IsSorted (sort_by_sequence ts)
unfolding sort_by_sequence
sort-IsSorted [] = tt
sort-IsSorted (t ∷ ts) = insert-IsSorted t (sort_by_sequence ts) (sort-IsSorted ts)

take-AtLeast : (k n : ℕ) (ts : List Turn) → AtLeast k ts → AtLeast k (take n ts)
take-AtLeast k zero ts a = tt
take-AtLeast k (suc n) [] a = tt
take-AtLeast k (suc n) (t ∷ ts) a = a

pub take-IsSorted : (n : ℕ) (ts : List Turn) → IsSorted ts → IsSorted (take n ts)
take-IsSorted zero ts s = tt
take-IsSorted (suc n) [] s = tt
take-IsSorted (suc n) (t ∷ ts) s = (take-AtLeast t.sequence n ts s.0, take-IsSorted n ts s.1)

pub sort-of_IsSorted : (ts : List Turn) → IsSorted ts → sort_by_sequence ts ≡ ts
unfolding sort_by_sequence insert_by_sequence
sort-of_IsSorted [] s = refl
sort-of_IsSorted (t ∷ ts) s = ap (insert_by_sequence t) (sort-of_IsSorted ts s.1) ∙ put t ts s.0
  where
    put : (t : Turn) (ts : List Turn) → AtLeast t.sequence ts → insert_by_sequence t ts ≡ t ∷ ts
    put t [] a = refl
    put t (x ∷ ts) a = ground arith
