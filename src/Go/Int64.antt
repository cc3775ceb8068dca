-- ===== src/Go/Int64.antt =====
-- Go's 64-bit `int`, with its wrap-around, and the conversion of an `int` to a `float64`.
use my_symphony.Base.{
  ℕ, zero, suc, ◌+◌, ◌-◌, ◌*◌, ◌/◌, ◌%◌, ◌^◌, ◌<◌, ◌≤◌, ◌≡◌, ltb, ◌==◌, if◌then◌else◌, ℤ, pos,
  negsuc, pos_part, neg_part, ◌+ℤ◌, ◌-ℤ◌, ◌*ℤ◌, arith,
}

abbrev pub max_int : ℕ
max_int = 2 ^ 63 - 1

-- The value of the low 64 bits of an integer, read as two's complement.
abbrev of_bits : ℕ → ℤ
of_bits u = if ltb u (2 ^ 63) then pos u else negsuc (2 ^ 64 - 1 - u)

abbrev pub wrap : ℤ → ℤ
wrap (pos n) = of_bits (n % 2 ^ 64)
wrap (negsuc n) = of_bits (2 ^ 64 - 1 - n % 2 ^ 64)

-- A value of Go's `int`.
abbrev pub IsInt64 : ℤ → Type 0
IsInt64 z = (pos_part z < 2 ^ 63) × (neg_part z ≤ 2 ^ 63)

unfoldable pub add64 : ℤ → ℤ → ℤ
add64 a b = wrap (a +ℤ b)

unfoldable pub sub64 : ℤ → ℤ → ℤ
sub64 a b = wrap (a -ℤ b)

unfoldable pub mul64 : ℤ → ℤ → ℤ
mul64 a b = wrap (a *ℤ b)

pub wrap_of_IsInt64 : (z : ℤ) → IsInt64 z → wrap z ≡ z
wrap_of_IsInt64 (pos n) h = ground arith
wrap_of_IsInt64 (negsuc n) h = ground arith

pub wrap-IsInt64 : (z : ℤ) → IsInt64 (wrap z)
wrap-IsInt64 (pos n) = ground arith
wrap-IsInt64 (negsuc n) = ground arith

-- `float64(n)` for a natural number: 53 significant bits, ties to even.

unfoldable pub scale_of : ℕ → ℕ → ℕ
scale_of zero n = 1
scale_of (suc fuel) n = let rest = scale_of fuel (n / 2) in if ltb n (2 ^ 53) then 1 else 2 * rest

-- `n` is cut to a multiple of `scale`, and rounded to the nearer one, or the even one at a tie.
unfoldable pub round_to : ℕ → ℕ → ℕ
round_to n scale =
    let q = n / scale in
    let up = (q + 1) * scale in
    if ltb (2 * (n % scale)) scale
    then q * scale
    else if ltb scale (2 * (n % scale))
    then up
    else if q % 2 == 0
    then q * scale
    else up

unfoldable pub float_of_ℕ : ℕ → ℕ
float_of_ℕ n = if ltb n (2 ^ 53) then n else round_to n (scale_of 64 n)

pub float_of_ℕ_exact : (n : ℕ) → n < 2 ^ 53 → float_of_ℕ n ≡ n
unfolding float_of_ℕ
float_of_ℕ_exact n h = ground arith

unfoldable pub float_of_int : ℤ → ℤ
float_of_int (pos n) = pos (float_of_ℕ n)
float_of_int (negsuc n) = pos 0 -ℤ pos (float_of_ℕ (suc n))
