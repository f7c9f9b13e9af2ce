-- ===== src/Connection/Backoff.antt =====
-- internal/harness/connection.go: the delay before an attempt. A duration is a signed 64-bit number.
use modeltap.Prelude.{
  ℕ, ◌+◌, ◌-◌, ◌*◌, ◌/◌, ◌%◌, ◌^◌, ◌≤◌, ◌<◌, ◌≡◌, ◌||◌, ltb, leb, ◌==◌, refl, inl, inr, Bool-cases,
  if◌then◌else◌, arith,
}
use native.Mathlib.Nat.{one-le-pow, pow-le-pow_right, mul-le-mul_left}
use modeltap.Prelude.Int.{ℤ, pos, pos_part, sub_ℕ}

unfoldable pub min : ℕ → ℕ → ℕ
min a b = if ltb a b then a else b

-- `initial * time.Duration(1<<uint(min(attempt, 30)))`, modulo 2 ^ 64.
abbrev pub grown : ℕ → ℕ → ℕ
grown n initial = (initial * 2 ^ min n 30) % 18446744073709551616

-- `delay > max || delay <= 0`: a value from 2 ^ 63 on stands for a negative number.
abbrev pub capped : ℕ → ℕ → ℕ
capped delay max =
    if ltb max delay || (delay == 0 || leb 9223372036854775808 delay) then max else delay

-- The signed number that a 64-bit pattern stands for.
abbrev pub signed64 : ℕ → ℤ
signed64 n = sub_ℕ n (if leb 9223372036854775808 n then 18446744073709551616 else 0)

-- `rand` is `rand.Int64N`. A negative attempt counts as 0. The sum wraps around.
unfoldable pub backoff_delay : (ℕ → ℕ) → ℤ → ℕ → ℕ → ℤ
unfolding min
backoff_delay rand attempt initial max =
    let delay : ℕ = capped (grown (pos_part attempt) initial) max in
    let jitter_max : ℕ = delay / 5 in
    if jitter_max == 0
    then pos delay
    else signed64 ((delay + rand (jitter_max * 2) - jitter_max) % 18446744073709551616)

min-pow-bounds :
    (n initial : ℕ)
    → 0 < initial
    → (0 < initial * 2 ^ min n 30) × (initial * 2 ^ min n 30 ≤ initial * 2 ^ 30)
unfolding min
min-pow-bounds n initial h =
    let at_least : 1 ≤ 2 ^ min n 30 = one-le-pow (min n 30) 2 (omega arith) in
    let at_most : 2 ^ min n 30 ≤ 2 ^ 30 = pow-le-pow_right (omega arith) {j = 30} (ground arith) in
    let low : initial * 1 ≤ initial * 2 ^ min n 30 = mul-le-mul_left initial at_least in
    (omega arith, mul-le-mul_left initial at_most)

capped-small :
    (d max : ℕ)
    → 0 < d
    → d < 9223372036854775808
    → capped (d % 18446744073709551616) max ≡ min d max
unfolding min
capped-small d max h k = ground arith

-- The delay without jitter: doubled with each attempt, up to the cap.
abbrev pub plain_delay : ℤ → ℕ → ℕ → ℕ
plain_delay attempt initial max = min (initial * 2 ^ min (pos_part attempt) 30) max

capped-grown :
    (attempt : ℤ) (initial max : ℕ)
    → 0 < initial
    → initial * 2 ^ 30 < 9223372036854775808
    → capped (grown (pos_part attempt) initial) max ≡ plain_delay attempt initial max
capped-grown attempt initial max h k =
    let b = min-pow-bounds (pos_part attempt) initial h in
    capped-small (initial * 2 ^ min (pos_part attempt) 30) max b.0 (omega (arith, b.1))

-- A duration that no wrapping made negative, at most a fifth away from another.
abbrev pub IsNear : ℕ → ℤ → Type 0
IsNear d b = (n : ℕ) × (b ≡ pos n) × (d - d / 5 ≤ n) × (n ≤ d + d / 5)

signed64-small : (n : ℕ) → n < 9223372036854775808 → signed64 (n % 18446744073709551616) ≡ pos n
signed64-small n h = ground arith

jittered :
    (rand : ℕ → ℕ)
    → ((n : ℕ) → 0 < n → rand n < n)
    → (d : ℕ) → d + d / 5 < 9223372036854775808
    → IsNear d (
        if d / 5 == 0
        then pos d
        else signed64 ((d + rand (d / 5 * 2) - d / 5) % 18446744073709551616))
jittered rand r d small = elim (Bool-cases (d / 5 == 0)) [
  | inl none ↦ rw none (d, refl, omega arith, omega arith)
  | inr some ↦
      let n : ℕ = d + rand (d / 5 * 2) - d / 5 in
      let most : rand (d / 5 * 2) < d / 5 * 2 = r (d / 5 * 2) (ground (arith, some)) in
      rw some
        (n, signed64-small n (omega (arith, most, small)), omega (arith, most), omega (arith, most))
]

min-le : (a b : ℕ) → min a b ≤ b
unfolding min
min-le a b = ground arith

-- With a positive initial delay that 30 doublings do not carry past 64-bit durations, and a cap that
-- the jitter does not either, the delay before an attempt is not negative, and at most a fifth away
-- from the initial delay doubled once for each earlier attempt, but at most 30 times, or from the cap
-- where that is less. `rand n` is taken to be below `n`.
pub backoff_delay_bounds :
    (rand : ℕ → ℕ) (attempt : ℤ) (initial max : ℕ)
    → ((n : ℕ) → 0 < n → rand n < n)
    → 0 < initial
    → initial * 2 ^ 30 < 9223372036854775808
    → max + max / 5 < 9223372036854775808
    → IsNear (plain_delay attempt initial max) (backoff_delay rand attempt initial max)
unfolding backoff_delay
backoff_delay_bounds rand attempt initial max r h k cap =
    let below = min-le (initial * 2 ^ min (pos_part attempt) 30) max in
    rw (capped-grown attempt initial max h k)
      (jittered rand r (plain_delay attempt initial max) (omega (arith, below, cap)))
