-- ===== src/Tools/Words.antt =====
-- The two ways in which a git command is cut into words: one to judge it, one to run it.
use modeltap.Prelude.{
  append_nil, ℕ, ◌≡◌, refl, ap, sym, ◌∙◌, Bool, true, false, not, ◌&&◌, ◌||◌, List, [], ◌∷◌, ◌++◌,
  some, inl, inr, if◌then◌else◌, ◌==◌, arith, Bool-cases,
}
use modeltap.Prelude.Text.{str_eq, trim_space, trim_left, trim_right, keep, is_space}
use Prim.Native.Char.{Char, code}
use Prim.Native.String.{String}
use modeltap.Tools.Dangerous.{is_dangerous_git}
use modeltap.Tools.Git.{
  RiskLevel, read_only, execute, destructive, has_metacharacter, plain, next_mode, next_cur,
  split_args, parse_git_args, non_empty, fields_from, flush, snoc, is_break, classify_words,
  classify_git,
}

fields-trim_left : (s : String) → fields_from "" (trim_left s) ≡ fields_from "" s
unfolding fields_from trim_left
fields-trim_left String.[] = refl
fields-trim_left (String.◌∷◌ c s) = elim (Bool-cases (is_space (code c))) [
  | inl blank ↦ ground (arith, fields-trim_left s)
  | inr seen ↦ ground arith
]

fields-cons :
    (cur : String) (c : Char) (s : String)
    → fields_from cur (String.◌∷◌ c s)
      ≡ (if is_space (code c) then flush cur else [])
        ++ fields_from (if is_space (code c) then "" else snoc cur c) s
unfolding fields_from
fields-cons cur c s = refl

fields-end : (cur : String) → fields_from cur "" ≡ flush cur
unfolding fields_from
fields-end cur = refl

fields-last :
    (cur : String) (c : Char) (b : Bool)
    → is_space (code c) ≡ b
    → fields_from cur (if b then "" else String.◌∷◌ c "")
      ≡ (if b then flush cur else []) ++ fields_from (if b then "" else snoc cur c) ""
fields-last cur c true h = rw (fields-end cur, fields-end "") (sym (append_nil (flush cur)))
fields-last cur c false h = fields-cons cur c "" ∙ rw h refl

fields-keep :
    (cur : String) (c : Char) (t : String)
    → fields_from cur (keep c t)
      ≡ (if is_space (code c) then flush cur else [])
        ++ fields_from (if is_space (code c) then "" else snoc cur c) t
fields-keep cur c String.[] = fields-last cur c (is_space (code c)) refl
fields-keep cur c (String.◌∷◌ d t) = fields-cons cur c (String.◌∷◌ d t)

fields-trim_right : (cur s : String) → fields_from cur (trim_right s) ≡ fields_from cur s
unfolding fields_from trim_right
fields-trim_right cur String.[] = refl
fields-trim_right cur (String.◌∷◌ c s) =
    fields-keep cur c (trim_right s)
    ∙ ap (λ l. (if is_space (code c) then flush cur else []) ++ l)
        (fields-trim_right (if is_space (code c) then "" else snoc cur c) s)

fields-trim_space : (s : String) → fields_from "" (trim_space s) ≡ fields_from "" s
unfolding trim_space
fields-trim_space s = fields-trim_right "" (trim_left s) ∙ fields-trim_left s

break-is_space : (k : ℕ) → is_break k ≡ true → is_space k ≡ true
unfolding is_space
break-is_space k h = ground arith

-- A character of a plain text is treated alike on both sides.
abbrev is_plain_char : ℕ → Bool
is_plain_char k = not (k == 39) && (not (k == 34) && (not (is_space k) || is_break k))

plain-is_space : (k : ℕ) → is_plain_char k ≡ true → is_space k ≡ is_break k
plain-is_space k h = elim (Bool-cases (is_break k)) [
  | inl b ↦ break-is_space k b ∙ sym b
  | inr b ↦ ground arith
]

mode_plain : (c : Char) → is_plain_char (code c) ≡ true → next_mode plain (code c) ≡ plain
mode_plain c h = ground arith

cur_plain :
    (cur : String) (c : Char)
    → is_plain_char (code c) ≡ true
    → next_cur plain cur c ≡ (if is_space (code c) then "" else snoc cur c)
cur_plain cur c h = rw (plain-is_space (code c) h) (ground arith)

-- No quotes, and no white space but blanks and tabs.
abbrev pub is_plain : String → Bool
is_plain String.[] = true
is_plain (String.◌∷◌ c s) = is_plain_char (code c) && is_plain s

split_args-cons :
    (cur : String) (c : Char) (s : String) (rest : List String)
    → is_plain_char (code c) ≡ true
    → split_args plain (if is_space (code c) then "" else snoc cur c) s ≡ some rest
    → split_args plain cur (String.◌∷◌ c s)
      ≡ some ((if is_space (code c) then flush cur else []) ++ rest)
unfolding split_args
split_args-cons cur c s rest h e =
    rw (split_args, mode_plain c h, cur_plain cur c h, e, plain-is_space (code c) h) refl

-- A plain text is cut alike.
split_args-plain :
    (cur s : String) → is_plain s ≡ true → split_args plain cur s ≡ some (fields_from cur s)
unfolding split_args
split_args-plain cur String.[] h = rw (fields-end cur) refl
split_args-plain cur (String.◌∷◌ c s) h =
    split_args-cons cur c s _ (ground arith)
      (split_args-plain (if is_space (code c) then "" else snoc cur c) s (ground arith))
    ∙ rw (fields-cons cur c s) refl

parse_git_args-words :
    (c : String)
    → is_plain c ≡ true
    → has_metacharacter c ≡ false
    → parse_git_args c ≡ non_empty (fields_from "" c)
unfolding parse_git_args
parse_git_args-words c h safe = rw (safe, split_args-plain "" c h) refl

-- An empty command is not read-only.
non_empty-read_only :
    (words : List String) → classify_words words ≡ read_only → non_empty words ≡ some words
non_empty-read_only [] h = ground (arith, h)
non_empty-read_only (w ∷ words) h = refl

-- The words are looked at last.
judged :
    (blank dangerous shell : Bool) (w : RiskLevel)
    → (if blank then execute else if dangerous then destructive else if shell then execute else w)
      ≡ read_only
    → w ≡ read_only
judged blank dangerous shell w h = ground arith

classify_git-words :
    (c : String)
    → classify_git c ≡ read_only
    → classify_words (fields_from "" (trim_space c)) ≡ read_only
unfolding classify_git
classify_git-words c h =
    let t = trim_space c in
    judged (str_eq t "") (is_dangerous_git t) (has_metacharacter t)
      (classify_words (fields_from "" t)) h

-- A git command without quotes, without white space but blanks and tabs and without metacharacters,
-- which is classified as read-only: its arguments are the words that were judged, all of them and in
-- their order, and these are read-only.
pub parse_git_args-read_only :
    (c : String)
    → is_plain c ≡ true
    → has_metacharacter c ≡ false
    → classify_git c ≡ read_only
    → (parse_git_args c ≡ some (fields_from "" (trim_space c)))
      × (classify_words (fields_from "" (trim_space c)) ≡ read_only)
parse_git_args-read_only c h safe judged_so =
    let words = classify_git-words c judged_so in
    (
      parse_git_args-words c h safe
          ∙ (ap non_empty (sym (fields-trim_space c))
              ∙ non_empty-read_only (fields_from "" (trim_space c)) words),
      words,
    )
