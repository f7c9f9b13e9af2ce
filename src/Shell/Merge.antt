-- ===== src/Shell/Merge.antt =====
-- What the merge of queued submissions keeps, and what releasing the queue emits.
use mathlib.Core.List.{append-nil, append_assoc}
use modeltap.Prelude.{
  ◌⊎◌, inl, inr, ap, sym, ◌∙◌, not, select, map, is_empty, Bool-cases, if◌then◌else◌, ℕ, ◌≡◌, refl,
  true, List, [], ◌∷◌, ◌++◌, flat_map, arith, String, ◌+◌,
}
use modeltap.Prelude.Text.{join, trim_space, str_eq, ◌<>◌, decimal}
use modeltap.Shell.Types.{Submission, submit_turn, queue_release}
use modeltap.Shell.State.{State, QueuedSubmission, Textarea}
use modeltap.Shell.Queue.{
  text_part, entries_part, empty_submission, merge_loop, merge_queued_submissions,
  release_queued_submission, begin_submission,
}

merge_loop_lem :
    (qs : List QueuedSubmission) (parts : List String) (m : QueuedSubmission)
    → merge_loop qs parts m ≡ record {
      id = m.id;
      text = join "\n\n" (parts ++ flat_map text_part qs);
      tokens = m.tokens ++ flat_map (λ q. q.tokens) qs;
      entries = m.entries ++ flat_map entries_part qs;
    }
unfolding merge_loop
merge_loop_lem [] parts m = simp append-nil
merge_loop_lem (q ∷ qs) parts m = simp (merge_loop_lem qs, append_assoc)

pub merge_queued_submissions_lem :
    (qs : List QueuedSubmission)
    → merge_queued_submissions qs ≡ record {
      id = "";
      text = join "\n\n" (flat_map text_part qs);
      tokens = flat_map (λ q. q.tokens) qs;
      entries = flat_map entries_part qs;
    }
unfolding merge_queued_submissions join
merge_queued_submissions_lem [] = refl
merge_queued_submissions_lem (q ∷ qs) = merge_loop_lem (q ∷ qs) [] empty_submission

-- The trimmed texts that are not blank.
abbrev pub spoken : List QueuedSubmission → List String
spoken qs = select (λ t. not (str_eq t "")) (map (λ q. trim_space q.text) qs)

-- The entries of a submission, or its own text where it has none.
abbrev pub kept : QueuedSubmission → List String
kept q = if is_empty q.entries then spoken (q ∷ []) else q.entries

text_part-spoken : (qs : List QueuedSubmission) → flat_map text_part qs ≡ spoken qs
text_part-spoken [] = refl
text_part-spoken (q ∷ qs) = elim (Bool-cases (str_eq (trim_space q.text) "")) [
  | inl blank ↦ rw blank (text_part-spoken qs)
  | inr said ↦ rw said (ap (λ l. trim_space q.text ∷ l) (text_part-spoken qs))
]

entries-cases : (es : List String) → (es ≡ []) ⊎ ((x : String) × (xs : List String) × (es ≡ x ∷ xs))
entries-cases [] = inl refl
entries-cases (x ∷ xs) = inr (x, xs, refl)

one-kept : (q : QueuedSubmission) → entries_part q ≡ kept q
one-kept q = elim (entries-cases q.entries) [
  | inl none ↦ rw none (sym (append-nil (text_part q)) ∙ text_part-spoken (q ∷ []))
  | inr (e, es, some) ↦ rw some refl
]

entries_part-kept : (qs : List QueuedSubmission) → flat_map entries_part qs ≡ flat_map kept qs
entries_part-kept [] = refl
entries_part-kept (q ∷ qs) = rw (one-kept q, entries_part-kept qs) refl

-- The merge of a queue keeps, in the order of submission, every token and the entries of every message,
-- or its trimmed text where it has no entries; its own text is that of all the trimmed non-blank
-- texts, with blank lines between them.
pub merge_queued_submissions-keeps :
    (qs : List QueuedSubmission)
    → (merge_queued_submissions qs).text ≡ join "\n\n" (spoken qs)
      × (merge_queued_submissions qs).entries ≡ flat_map kept qs
      × (merge_queued_submissions qs).tokens ≡ flat_map (λ q. q.tokens) qs
merge_queued_submissions-keeps qs =
    let all = merge_queued_submissions_lem qs in
    (
      ap (λ m. m.text) all ∙ ap (join "\n\n") (text_part-spoken qs),
      ap (λ m. m.entries) all ∙ entries_part-kept qs,
      ap (λ m. m.tokens) all,
    )

-- The submission that a release of these queued messages hands to the host.
abbrev pub released : ℕ → ℕ → List QueuedSubmission → Submission
released at n qs = record {
  id = "sub-" <> decimal n;
  entries = flat_map entries_part qs;
  text = trim_space (join "\n\n" (flat_map text_part qs));
  tokens = flat_map (λ q. q.tokens) qs;
  source = queue_release;
  requested_at = at;
}

module _ {Area Cmd : Type 0} (ops : Textarea Area) (at : ℕ) where
  pub release_lem :
      (s : State Area Cmd) (q : QueuedSubmission) (qs : List QueuedSubmission)
      → s.pending_submissions ≡ []
      → s.queued_submissions ≡ q ∷ qs
      → let s' = release_queued_submission ops at s in
        (s'.queued_submissions ≡ [])
        × (s'.pending_submissions ≡ [])
        × (s'.streaming ≡ true)
        × (s'.pending_actions
            ≡ s.pending_actions
              ++ submit_turn (released at (s.submission_counter + 1) (q ∷ qs)) ∷ [])
  unfolding release_queued_submission begin_submission
  release_lem s q qs p e = ground (arith, merge_queued_submissions_lem (q ∷ qs))
