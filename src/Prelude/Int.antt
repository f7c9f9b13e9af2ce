-- ===== src/Prelude/Int.antt =====
-- Go's `int` where the code relies on negative values: signed integers over the native numbers.
use Prim.Native.Nat.{ℕ, suc, ◌+◌, ◌-◌}
use mathlib.Core.Bool.{Bool}
use mathlib.Core.List.{List}
use mathlib.Core.Option.{Option, none}
use modeltap.Prelude.Tests.{ltb, leb, if◌then◌else◌}
use modeltap.Prelude.Lists.{get_elem?, modify}

-- `negsuc n` is -(n + 1).
pub data ℤ : Type 0 where
  pos : ℕ → ℤ
  negsuc : ℕ → ℤ

abbrev pub pos_part : ℤ → ℕ
pos_part (pos n) = n
pos_part (negsuc n) = 0

abbrev pub neg_part : ℤ → ℕ
neg_part (pos n) = 0
neg_part (negsuc n) = suc n

-- a - b, as an integer.
abbrev pub sub_ℕ : ℕ → ℕ → ℤ
sub_ℕ a b = if leb b a then pos (a - b) else negsuc (b - a - 1)

infixl 65 ◌+ℤ◌
unfoldable pub ◌+ℤ◌ : ℤ → ℤ → ℤ
a +ℤ b = sub_ℕ (pos_part a + pos_part b) (neg_part a + neg_part b)

abbrev pub ltb_ℤ : ℤ → ℤ → Bool
ltb_ℤ a b = ltb (pos_part a + neg_part b) (pos_part b + neg_part a)

-- A slice indexed by an `int`; where Go would panic the result is `none`.
abbrev pub get_at? {ℓ} : {A : Type ℓ} → List A → ℤ → Option A
get_at? xs (pos i) = get_elem? xs i
get_at? xs (negsuc i) = none

abbrev pub modify_at {ℓ} : {A : Type ℓ} → List A → ℤ → (A → A) → List A
modify_at xs (pos i) f = modify xs i f
modify_at xs (negsuc i) f = xs
