-- ===== src/Sessions/Instants.antt =====
-- internal/storage/sessions.go: instants in the table, and how SQL compares them. An instant is a
-- number of nanoseconds; the table keeps the text of time.RFC3339Nano in UTC.
use modeltap.Prelude.{
  ℕ, zero, suc, ◌+◌, ◌/◌, ◌%◌, ◌^◌, ◌<◌, ◌≡◌, refl, Bool, true, false, List, [], ◌∷◌, ltb, ◌==◌,
  if◌then◌else◌, arith,
}

abbrev pub second : ℕ
second = 1000000000

-- The codes of the `k` digits of a number, without the zeros at their end, and of the `Z`.
unfoldable pub digits_from : ℕ → ℕ → List ℕ
digits_from zero n = 90 ∷ []
digits_from (suc k) n = if n == 0 then 90 ∷ [] else (48 + n / 10 ^ k) ∷ digits_from k (n % 10 ^ k)

-- What stands after the seconds: a dot and the fraction, unless it is zero, and `Z`.
unfoldable pub fraction_text : ℕ → List ℕ
unfolding digits_from
fraction_text n = if n == 0 then 90 ∷ [] else 46 ∷ digits_from 9 n

-- Texts in the order of their bytes.
unfoldable pub is_less : List ℕ → List ℕ → Bool
is_less xs [] = false
is_less [] (y ∷ ys) = true
is_less (x ∷ xs) (y ∷ ys) = if x == y then is_less xs ys else ltb x y

-- `<` on two stored instants. What stands up to the seconds has one width, so that it compares as
-- the number of the seconds does.
unfoldable pub is_before : ℕ → ℕ → Bool
unfolding fraction_text is_less
is_before s t =
    if s / second == t / second
    then is_less (fraction_text (s % second)) (fraction_text (t % second))
    else ltb (s / second) (t / second)

-- An instant of an earlier second is not after one of a later second.
pub is_before-second : (s t : ℕ) → t / second < s / second → is_before s t ≡ false
unfolding is_before
is_before-second s t h = ground (arith, h)

-- Half a second past is before the second itself, as texts.
half_second : is_before 1500000000 1000000000 ≡ true
unfolding is_before fraction_text digits_from is_less
half_second = refl
