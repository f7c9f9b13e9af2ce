-- ===== src/Prelude/Text.antt =====
-- The parts of Go's `strings` and `fmt` that the modelled code calls. A Go string is a `String`: its
-- code points, with `len` for the bytes of their UTF-8.
use Prim.Native.Nat.{ℕ, zero, suc, ◌+◌, ◌*◌, ◌-◌, ◌/◌, ◌%◌, ◌<◌}
use Prim.Native.Char.{Char, code}
use Prim.Native.String.{String, [], ◌∷◌}
use Prim.Native.String
use text.Mathlib.Text.{◌==◌}
use text.Mathlib.TextEquality.{eq_iff}
use text.Mathlib.TextLemmas.{nil-append, cons-append, append_cancel_left}
use mathlib.Core.Path.{◌≡◌, refl, sym, ap, ◌∙◌}
use mathlib.Core.Bool.{Bool, true, false, not, ◌&&◌, ◌||◌}
use mathlib.Core.Option.{Option, none, some}
use mathlib.Core.List.{List}
use native.Mathlib.Omega.{arith}
use mathlib.Core.Logic.{◌⊎◌, inl, inr}
use modeltap.Prelude.Tests.{ltb, leb, ltb→lt, Bool-cases, ◌==◌ as nat_eq, if◌then◌else◌}

infixr 65 ◌<>◌
abbrev pub ◌<>◌ : String → String → String
s <> t = String.◌++◌ s t

abbrev pub str_eq : String → String → Bool
str_eq s t = s == t

pub str_eq_iff : (s t : String) → (str_eq s t ≡ true) → s ≡ t
str_eq_iff s t = (eq_iff s t).0

-- The runes of a text.
abbrev pub codes : String → List ℕ
codes [] = List.[]
codes (c ∷ s) = List.◌∷◌ (code c) (codes s)

-- `unicode.IsSpace`.
unfoldable pub is_space : ℕ → Bool
is_space c =
    (leb 9 c && leb c 13)
    || (nat_eq c 32 || nat_eq c 0x85 || nat_eq c 0xa0 || nat_eq c 0x1680)
    || (leb 0x2000 c && leb c 0x200a)
    || (nat_eq c 0x2028 || nat_eq c 0x2029 || nat_eq c 0x202f || nat_eq c 0x205f || nat_eq c 0x3000)

unfoldable pub trim_left : String → String
unfolding is_space
trim_left [] = []
trim_left (c ∷ s) = elim (is_space (code c)) [ true ↦ trim_left s | false ↦ c ∷ s ]

-- A character in front of a text that is already trimmed on the right.
abbrev pub keep : Char → String → String
keep c [] = if is_space (code c) then [] else c ∷ []
keep c (d ∷ s) = c ∷ d ∷ s

unfoldable pub trim_right : String → String
unfolding is_space
trim_right [] = []
trim_right (c ∷ s) = keep c (trim_right s)

-- `strings.TrimSpace`.
unfoldable pub trim_space : String → String
unfolding trim_left trim_right
trim_space s = trim_right (trim_left s)

-- A text with a character that is no space.
abbrev pub has_visible : String → Bool
has_visible [] = false
has_visible (c ∷ s) = if is_space (code c) then has_visible s else true

visible_left : (s : String) → has_visible s ≡ true → has_visible (trim_left s) ≡ true
unfolding trim_left
visible_left [] h = h
visible_left (c ∷ s) h = elim (Bool-cases (is_space (code c))) [
  | inl blank ↦ ground (arith, visible_left s)
  | inr seen ↦ ground arith
]

pub cons-not_empty : (c : Char) (t : String) → str_eq (c ∷ t) "" ≡ false
cons-not_empty c t = elim (Bool-cases (str_eq (c ∷ t) "")) [
  | inl e ↦ cc (str_eq_iff (c ∷ t) "" e)
  | inr e ↦ e
]

keep-not_empty :
    (c : Char) (t : String)
    → (str_eq t "" ≡ false) ⊎ (is_space (code c) ≡ false)
    → str_eq (keep c t) "" ≡ false
keep-not_empty c [] (inl h) = ground arith
keep-not_empty c [] (inr h) = rw h (cons-not_empty c [])
keep-not_empty c (d ∷ t) h = cons-not_empty c (d ∷ t)

visible_right : (s : String) → has_visible s ≡ true → str_eq (trim_right s) "" ≡ false
unfolding trim_right
visible_right [] h = ground arith
visible_right (c ∷ s) h = elim (Bool-cases (has_visible s)) [
  | inl seen ↦ keep-not_empty c (trim_right s) (inl (visible_right s seen))
  | inr hidden ↦ keep-not_empty c (trim_right s) (inr (ground arith))
]

-- Trimming leaves something of a text with a character that is no space.
pub trim_space-visible : (s : String) → has_visible s ≡ true → str_eq (trim_space s) "" ≡ false
unfolding trim_space
trim_space-visible s h = visible_right (trim_left s) (visible_left s h)

-- `strings.Join`.
unfoldable pub join : String → List String → String
join sep List.[] = []
join sep (List.◌∷◌ s rest) = elim rest [ List.[] ↦ s | List.◌∷◌ t ts ↦ s <> sep <> join sep rest ]

-- `strings.HasPrefix` and `strings.TrimPrefix` for a text of one character, such as "/".
abbrev pub strip_char : ℕ → String → Option String
strip_char k [] = none
strip_char k (c ∷ s) = if nat_eq (code c) k then some s else none

-- `s[:i]` and `s[i+1:]` for `i` the `strings.IndexAny(s, " \t")`; `none` where that is -1.
unfoldable pub cut_blank : String → Option (String × String)
cut_blank [] = none
cut_blank (c ∷ s) =
    if nat_eq (code c) 32 || nat_eq (code c) 9
    then some ([], s)
    else elim (cut_blank s) [ none ↦ none | some (a, b) ↦ some (c ∷ a, b) ]

-- `strings.Count(s, "\n")`.
unfoldable pub count_newlines : String → ℕ
count_newlines [] = 0
count_newlines (c ∷ s) = (if nat_eq (code c) 10 then 1 else 0) + count_newlines s

-- `len(s)`: the bytes of the UTF-8 of a text.
utf8_size : ℕ → ℕ
utf8_size c = if ltb c 128 then 1 else if ltb c 2048 then 2 else if ltb c 65536 then 3 else 4

unfoldable pub byte_length : String → ℕ
unfolding utf8_size
byte_length [] = 0
byte_length (c ∷ s) = utf8_size (code c) + byte_length s

digit : ℕ → Char
digit zero = "0"
digit (suc zero) = "1"
digit (suc (suc zero)) = "2"
digit (suc (suc (suc zero))) = "3"
digit (suc (suc (suc (suc zero)))) = "4"
digit (suc (suc (suc (suc (suc zero))))) = "5"
digit (suc (suc (suc (suc (suc (suc zero)))))) = "6"
digit (suc (suc (suc (suc (suc (suc (suc zero))))))) = "7"
digit (suc (suc (suc (suc (suc (suc (suc (suc zero)))))))) = "8"
digit (suc (suc (suc (suc (suc (suc (suc (suc (suc n))))))))) = "9"

-- `fmt.Sprintf("%d", n)` for n ≥ 0; the fuel is above the number of digits.
decimal_fuel : ℕ → ℕ → String
decimal_fuel zero n = []
decimal_fuel (suc f) n =
    let more = decimal_fuel f (n / 10) <> (digit (n % 10) ∷ []) in
    if ltb n 10 then digit n ∷ [] else more

unfoldable pub decimal : ℕ → String
unfolding decimal_fuel digit
decimal n = decimal_fuel (suc n) n

value_from : ℕ → String → ℕ
value_from acc [] = acc
value_from acc (c ∷ s) = value_from (acc * 10 + (code c - 48)) s

value_from-append :
    (acc : ℕ) (s t : String) → value_from acc (s <> t) ≡ value_from (value_from acc s) t
unfolding value_from
value_from-append acc [] t = rw nil-append
value_from-append acc (c ∷ s) t = rw cons-append (value_from-append (acc * 10 + (code c - 48)) s t)

code-digit : (n : ℕ) → n < 10 → code (digit n) ≡ n + 48
unfolding digit
code-digit zero h = refl
code-digit (suc zero) h = refl
code-digit (suc (suc zero)) h = refl
code-digit (suc (suc (suc zero))) h = refl
code-digit (suc (suc (suc (suc zero)))) h = refl
code-digit (suc (suc (suc (suc (suc zero))))) h = refl
code-digit (suc (suc (suc (suc (suc (suc zero)))))) h = refl
code-digit (suc (suc (suc (suc (suc (suc (suc zero))))))) h = refl
code-digit (suc (suc (suc (suc (suc (suc (suc (suc zero)))))))) h = refl
code-digit (suc (suc (suc (suc (suc (suc (suc (suc (suc zero))))))))) h = refl
code-digit (suc (suc (suc (suc (suc (suc (suc (suc (suc (suc n)))))))))) h = absurd (omega arith)

value_from-digit : (acc n : ℕ) → n < 10 → value_from acc (digit n ∷ []) ≡ acc * 10 + n
unfolding value_from
value_from-digit acc n h = omega (arith, code-digit n h)

value-decimal_fuel : (f n : ℕ) → n < f → value_from 0 (decimal_fuel f n) ≡ n
unfolding decimal_fuel
value-decimal_fuel zero n h = absurd (omega arith)
value-decimal_fuel (suc f) n h = elim (Bool-cases (ltb n 10)) [
  | inl small ↦ rw small (value_from-digit 0 n (ltb→lt n 10 small) ∙ omega arith)
  | inr big ↦
      rw (big, value_from-append, value-decimal_fuel f (n / 10) (ground arith))
        (value_from-digit (n / 10) (n % 10) (omega arith) ∙ omega arith)
]

-- Two numbers printed alike are equal.
pub decimal-injective : (m n : ℕ) → decimal m ≡ decimal n → m ≡ n
unfolding decimal
decimal-injective m n e =
    sym (value-decimal_fuel (suc m) m (omega arith))
    ∙ ap (value_from 0) e
    ∙ value-decimal_fuel (suc n) n (omega arith)

pub tagged-injective : (tag : String) (m n : ℕ) → tag <> decimal m ≡ tag <> decimal n → m ≡ n
tagged-injective tag m n e = decimal-injective m n (append_cancel_left tag _ _ e)

-- A list of texts holds a text.
abbrev pub text_mem : String → List String → Bool
text_mem k List.[] = false
text_mem k (List.◌∷◌ j ks) = if str_eq j k then true else text_mem k ks

-- No text stands twice in a list.
abbrev pub is_distinct : List String → Bool
is_distinct List.[] = true
is_distinct (List.◌∷◌ k ks) = not (text_mem k ks) && is_distinct ks

module _ {ℓ} {V : Type ℓ} where
  -- A Go map with text keys as an association list, each key once.
  abbrev pub lookup : String → List (String × V) → Option V
  lookup k List.[] = none
  lookup k (List.◌∷◌ (j, v) m) = if str_eq j k then some v else lookup k m

  abbrev pub insert : String → V → List (String × V) → List (String × V)
  insert k v List.[] = List.◌∷◌ (k, v) List.[]
  insert k v (List.◌∷◌ (j, w) m) =
      if str_eq j k then List.◌∷◌ (k, v) m else List.◌∷◌ (j, w) (insert k v m)

  -- `delete(m, k)`.
  abbrev pub erase : String → List (String × V) → List (String × V)
  erase k List.[] = List.[]
  erase k (List.◌∷◌ (j, w) m) = if str_eq j k then erase k m else List.◌∷◌ (j, w) (erase k m)

  pub lookup-insert :
      (k j : String) (v : V) (m : List (String × V))
      → lookup j (insert k v m) ≡ (if str_eq k j then some v else lookup j m)
  lookup-insert k j v List.[] = refl
  lookup-insert k j v (List.◌∷◌ (i, w) m) =
      ground (arith, eq_iff k j, eq_iff i k, eq_iff i j, lookup-insert k j v m)

  pub lookup-erase :
      (k j : String) (m : List (String × V))
      → lookup j (erase k m) ≡ (if str_eq k j then none else lookup j m)
  lookup-erase k j List.[] = ground arith
  lookup-erase k j (List.◌∷◌ (i, w) m) =
      ground (arith, eq_iff k j, eq_iff i k, eq_iff i j, lookup-erase k j m)
