-- ===== src/Tools/Git.antt =====
-- internal/harness/tools/git.go: the split of a git command into arguments, and its risk.
use modeltap.Prelude.{
  ℕ, Bool, true, false, not, ◌&&◌, ◌||◌, List, [], ◌∷◌, ◌++◌, Option, none, some, any, ◌==◌,
  if◌then◌else◌,
}
use modeltap.Prelude.Text.{str_eq, text_mem, trim_space, is_space, ◌<>◌}
use Prim.Native.String.{String}
use Prim.Native.Char.{Char, code}
use modeltap.Tools.Dangerous.{is_dangerous_git}

pub data RiskLevel : Type 0 where
  read_only write execute destructive : RiskLevel
  -- Any other string that the type admits.
  unknown : String → RiskLevel

-- `;|&` and so on.
abbrev pub is_metacharacter : ℕ → Bool
is_metacharacter c =
    c == b';'
    || (c == b'|'
        || (c == b'&'
            || (c == b'`' || (c == b'$' || (c == b'<' || (c == b'>' || (c == 10 || c == 13)))))))

unfoldable pub has_metacharacter : String → Bool
has_metacharacter String.[] = false
has_metacharacter (String.◌∷◌ c s) = is_metacharacter (code c) || has_metacharacter s

abbrev pub snoc : String → Char → String
snoc s c = s <> String.◌∷◌ c String.[]

abbrev pub flush : String → List String
flush cur = if str_eq cur "" then [] else cur ∷ []

pub data Mode : Type 0 where
  plain in_single in_double : Mode

abbrev pub next_mode : Mode → ℕ → Mode
next_mode in_single c = if c == 39 then plain else in_single
next_mode in_double c = if c == 34 then plain else in_double
next_mode plain c = if c == 39 then in_single else if c == 34 then in_double else plain

abbrev pub is_break : ℕ → Bool
is_break c = c == 32 || c == 9

-- The argument that is being read, after one more character.
abbrev pub next_cur : Mode → String → Char → String
next_cur in_single cur c = if code c == 39 then cur else snoc cur c
next_cur in_double cur c = if code c == 34 then cur else snoc cur c
next_cur plain cur c =
    if code c == 39 || code c == 34 then cur else if is_break (code c) then "" else snoc cur c

abbrev pub emitted : Mode → String → Char → List String
emitted plain cur c = if is_break (code c) then flush cur else []
emitted in_single cur c = []
emitted in_double cur c = []

-- `none` is an unterminated quote.
unfoldable pub split_args : Mode → String → String → Option (List String)
split_args mode cur String.[] = elim mode [ plain ↦ some (flush cur) | _ ↦ none ]
split_args mode cur (String.◌∷◌ c s) =
    elim (split_args (next_mode mode (code c)) (next_cur mode cur c) s) [
      | none ↦ none
      | some rest ↦ some (emitted mode cur c ++ rest)
    ]

abbrev pub non_empty : List String → Option (List String)
non_empty [] = none
non_empty (a ∷ args) = some (a ∷ args)

-- `none` is one of the three errors.
unfoldable pub parse_git_args : String → Option (List String)
unfolding has_metacharacter split_args
parse_git_args cmd =
    if has_metacharacter cmd
    then none
    else elim (split_args plain "" cmd) [ none ↦ none | some args ↦ non_empty args ]

-- `strings.Fields`.
unfoldable pub fields_from : String → String → List String
unfolding is_space
fields_from cur String.[] = flush cur
fields_from cur (String.◌∷◌ c s) =
    (if is_space (code c) then flush cur else [])
    ++ fields_from (if is_space (code c) then "" else snoc cur c) s

abbrev pub git_read_commands : List String
git_read_commands =
    "status" ∷ "log" ∷ "diff" ∷ "show" ∷ "branch" ∷ "tag" ∷ "ls-files" ∷ "ls-tree" ∷ "rev-parse"
    ∷ "blame" ∷ "shortlog" ∷ "describe" ∷ "rev-list" ∷ "cat-file" ∷ "name-rev" ∷ "grep" ∷ "fsck"
    ∷ []

abbrev pub mutation_flags : List String
mutation_flags = "-d" ∷ "-m" ∷ "-M" ∷ "-c" ∷ "-C" ∷ "--delete" ∷ "--move" ∷ "--copy" ∷ []

abbrev pub positional_mutation_subs : List String
positional_mutation_subs = "branch" ∷ "tag" ∷ []

abbrev pub is_flag : String → Bool
is_flag String.[] = false
is_flag (String.◌∷◌ c s) = code c == b'-'

-- The risk of the words of a command without metacharacters. There is a first word, since the
-- command is not blank; without one the source would panic.
abbrev pub classify_words : List String → RiskLevel
classify_words [] = execute
classify_words (sub ∷ rest) =
    if not (text_mem sub git_read_commands)
    then execute
    else if any (λ f. text_mem f mutation_flags) rest
    then execute
    else if text_mem sub positional_mutation_subs && any (λ f. not (is_flag f)) rest
    then execute
    else read_only

unfoldable pub classify_git : String → RiskLevel
unfolding has_metacharacter fields_from
classify_git command =
    let trimmed = trim_space command in
    if str_eq trimmed ""
    then execute
    else if is_dangerous_git trimmed
    then destructive
    else if has_metacharacter trimmed
    then execute
    else classify_words (fields_from "" trimmed)

abbrev is_read_only : RiskLevel → Bool
is_read_only read_only = true
is_read_only _ = false

unfoldable pub is_git_read : String → Bool
unfolding classify_git
is_git_read command = is_read_only (classify_git command)
