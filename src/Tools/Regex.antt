-- ===== src/Tools/Regex.antt =====
-- The part of Go's regexp that the catalog of dangerous commands uses: a pattern repeats single
-- characters only, so a match is found by recursion on the text.
use modeltap.Prelude.{
  ℕ, ◌-◌, Bool, true, false, not, ◌&&◌, ◌||◌, List, [], ◌∷◌, Option, none, some, leb, ◌==◌,
  if◌then◌else◌,
}
use modeltap.Prelude.Text.{codes}
use Prim.Native.String.{String}

pub data Regex : Type 0 where
  -- One character, and any number of characters, that pass a test.
  one : (ℕ → Bool) → Regex
  many : (ℕ → Bool) → Regex
  empty : Regex
  seq alt : Regex → Regex → Regex
  -- `\b` and `\B`, `^` and `$`.
  edge no_edge at_start at_end : Regex

-- `[0-9A-Za-z_]`.
abbrev pub is_word : ℕ → Bool
is_word c =
    (leb b'0' c && leb c b'9')
    || ((leb b'A' c && leb c b'Z') || ((leb b'a' c && leb c b'z') || c == b'_'))

abbrev is_word_at : Option ℕ → Bool
is_word_at none = false
is_word_at (some c) = is_word c

abbrev pub first_of : List ℕ → Option ℕ
first_of [] = none
first_of (c ∷ s) = some c

abbrev pub is_edge : Option ℕ → List ℕ → Bool
is_edge before s =
    if is_word_at before then not (is_word_at (first_of s)) else is_word_at (first_of s)

-- What follows a match: a test on the character before and the text that is left.
abbrev pub Rest : Type 0
Rest = Option ℕ → List ℕ → Bool

unfoldable pub run_many : (ℕ → Bool) → Rest → Rest
run_many p k before [] = k before []
run_many p k before (c ∷ s) =
    let more = run_many p k (some c) s in
    if k before (c ∷ s) then true else if p c then more else false

unfoldable pub run : Regex → Rest → Rest
unfolding run_many
run (one p) k before [] = false
run (one p) k before (c ∷ s) = if p c then k (some c) s else false
run (many p) k before s = run_many p k before s
run empty k before s = k before s
run (seq r q) k before s = run r (run q k) before s
run (alt r q) k before s = if run r k before s then true else run q k before s
run edge k before s = if is_edge before s then k before s else false
run no_edge k before s = if is_edge before s then false else k before s
run at_start k none s = k none s
run at_start k (some c) s = false
run at_end k before [] = k before []
run at_end k before (c ∷ s) = false

abbrev pub done : Rest
done before s = true

-- A match anywhere in the text.
unfoldable pub search_from : Regex → Rest
unfolding run
search_from r before [] = run r done before []
search_from r before (c ∷ s) =
    let later = search_from r (some c) s in if run r done before (c ∷ s) then true else later

-- `re.MatchString`.
unfoldable pub match_string : Regex → String → Bool
unfolding search_from
match_string r s = search_from r none (codes s)

-- Notation for patterns: a text, one of `(?i)`, and the classes.
abbrev pub literal : List ℕ → Regex
literal [] = empty
literal (c ∷ []) = one (λ x. x == c)
literal (c ∷ d ∷ s) = seq (one (λ x. x == c)) (literal (d ∷ s))

abbrev pub lit : String → Regex
lit s = literal (codes s)

-- A lower-case letter without regard to case; two letters have a third form in Unicode.
abbrev pub folds : ℕ → ℕ → Bool
folds c x =
    x == c
    || ((leb b'a' c && leb c b'z' && x == c - 32)
        || ((c == b's' && x == 0x17f) || (c == b'k' && x == 0x212a)))

abbrev pub literal_i : List ℕ → Regex
literal_i [] = empty
literal_i (c ∷ []) = one (folds c)
literal_i (c ∷ d ∷ s) = seq (one (folds c)) (literal_i (d ∷ s))

abbrev pub lit_i : String → Regex
lit_i s = literal_i (codes s)

-- `\s`, `.`, and `[a-z]` under `(?i)`.
abbrev pub blank : ℕ → Bool
blank c = c == 9 || (c == 10 || (c == 12 || (c == 13 || c == 32)))

abbrev pub dot : ℕ → Bool
dot c = not (c == 10)

abbrev pub letter_i : ℕ → Bool
letter_i c =
    (leb b'a' c && leb c b'z') || ((leb b'A' c && leb c b'Z') || (c == 0x17f || c == 0x212a))

abbrev pub blanks1 : Regex
blanks1 = seq (one blank) (many blank)

abbrev pub anything : Regex
anything = many dot

infixr 66 ◌⨟◌
abbrev pub ◌⨟◌ : Regex → Regex → Regex
r ⨟ q = seq r q

abbrev pub one_of : List String → Regex
one_of [] = empty
one_of (s ∷ []) = lit s
one_of (s ∷ t ∷ ts) = alt (lit s) (one_of (t ∷ ts))
