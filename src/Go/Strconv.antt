-- ===== src/Go/Strconv.antt =====
-- Package strconv.
use my_symphony.Base.{
  ◌/◌, ◌%◌, zero, suc, ℕ, ◌+◌, ◌-◌, ◌*◌, ◌^◌, ◌≡◌, refl, ◌&&◌, leb, ltb, ◌==◌, if◌then◌else◌, [],
  ◌∷◌, Option, none, some, ℤ, pos, negsuc, Bool,
}
use mathlib.Core.Option
use my_symphony.Go.Utf8.{Text, ascii}

unfoldable pub is_digit : ℕ → Bool
is_digit b = leb b'0' b && leb b b'9'

-- The number that decimal digits write; `none` at any other byte.
unfoldable pub digits_from : ℕ → Text → Option ℕ
unfolding is_digit
digits_from acc [] = some acc
digits_from acc (b ∷ rest) =
    let next = digits_from (acc * 10 + (b - b'0')) rest in if is_digit b then next else none

unfoldable pub digits : Text → Option ℕ
unfolding digits_from
digits [] = none
digits (b ∷ rest) = digits_from 0 (b ∷ rest)

-- A magnitude with its sign, `none` out of the range of an `int`.
unfoldable pub positive : ℕ → Option ℤ
positive n = if ltb n (2 ^ 63) then some (pos n) else none

unfoldable pub negative : ℕ → Option ℤ
negative n = if n == 0 then some (pos 0) else if leb n (2 ^ 63) then some (negsuc (n - 1)) else none

-- The decimal digits of a number before those of a text; a number has fewer digits than its value
-- and one.
unfoldable pub digits_onto : ℕ → ℕ → Text → Text
digits_onto zero n rest = rest
digits_onto (suc fuel) n rest =
    let more = digits_onto fuel (n / 10) ((b'0' + n % 10) ∷ rest) in
    if ltb n 10 then (b'0' + n % 10) ∷ rest else more

-- strconv.Itoa of a natural number.
unfoldable pub itoa : ℕ → Text
unfolding digits_onto
itoa n = digits_onto (n + 1) n []

ten_twice : itoa 1010 ≡ ascii "1010"
unfolding itoa
ten_twice = refl

-- strconv.Atoi; `none` is an error.
unfoldable pub atoi : Text → Option ℤ
unfolding digits positive negative Option.bind
atoi [] = none
atoi (b ∷ rest) =
    if b == b'-'
    then Option.bind (digits rest) negative
    else if b == b'+'
    then Option.bind (digits rest) positive
    else Option.bind (digits (b ∷ rest)) positive

atoi_tests :
    (atoi (ascii "42") ≡ some (pos 42))
    × (atoi (ascii "-7") ≡ some (negsuc 6))
    × (atoi (ascii "9223372036854775808") ≡ none)
    × (atoi (ascii "4x") ≡ none)
unfolding atoi
atoi_tests = (refl, refl, refl, refl)
