-- ===== src/LinearGraphql/Strip.antt =====
-- The loops of internal/tools/lineargql/parse.go: their fuel, and the bytes that are left.
use my_symphony.LinearGraphql.Parse.{
  skip_line, skip_block, skip_string, skip_quoted, strip, strip_graphql, read_word, count, Counter,
  is_letter, is_word_byte, open_brace, close_brace, def_word,
}
use my_symphony.Go.Utf8.{Text}
use my_symphony.Base.{
  inr, inl, Bool-cases, ◌≤◌, ◌≡◌, ◌∷◌, ◌==◌, ℕ, zero, true, suc, refl, length, false, arith, [],
  All,
}

pub skip_line-le : (s : Text) → length (skip_line s) ≤ length s
unfolding skip_line
skip_line-le [] = omega arith
skip_line-le (c ∷ s) = ground (arith, skip_line-le s)

skip_block-le : (s : Text) → length (skip_block s) ≤ length s
unfolding skip_block
skip_block-le [] = omega arith
skip_block-le (a ∷ []) = omega arith
skip_block-le (a ∷ b ∷ []) = omega arith
skip_block-le (a ∷ b ∷ c ∷ s) = ground (arith, skip_block-le (b ∷ c ∷ s))

skip_string-le : (s : Text) → length (skip_string s) ≤ length s
unfolding skip_string
skip_string-le [] = omega arith
skip_string-le (c ∷ []) = omega arith
skip_string-le (c ∷ d ∷ s) = ground (arith, skip_string-le s, skip_string-le (d ∷ s))

pub skip_quoted-le : (s : Text) → length (skip_quoted s) ≤ length s
unfolding skip_quoted
skip_quoted-le [] = skip_string-le []
skip_quoted-le (a ∷ []) = skip_string-le (a ∷ [])
skip_quoted-le (a ∷ b ∷ s) = ground (arith, skip_block-le s, skip_string-le (a ∷ b ∷ s))

strip-le : (n : ℕ) (s : Text) → length s ≤ n → length (strip n s) ≤ length s
unfolding strip
strip-le zero [] h = omega arith
strip-le zero (c ∷ s) h = absurd (omega arith)
strip-le (suc n) [] h = omega arith
strip-le (suc n) (c ∷ s) h =
    let hc = skip_line-le s in
    let hq = skip_quoted-le s in
    ground (
      arith,
      strip-le n (skip_line s) (omega arith),
      strip-le n (skip_quoted s) (omega arith),
      strip-le n s (omega arith),
    )

read_word-le : (s : Text) → length (read_word s).1 ≤ length s
unfolding read_word
read_word-le [] = omega arith
read_word-le (c ∷ s) = ground (arith, read_word-le s)

-- A word that begins with a letter takes a byte.
pub read_word-less :
    (c : ℕ) (s : Text) → is_letter c ≡ true → length (read_word (c ∷ s)).1 ≤ length s
unfolding read_word is_word_byte
read_word-less c s h = ground (arith, read_word-le s)

pub count-fuel :
    (m n : ℕ) (s : Text) (k : Counter) → length s ≤ m → length s ≤ n → count m s k ≡ count n s k
unfolding count
count-fuel zero zero [] k hm hn = refl
count-fuel zero (suc n) [] k hm hn = refl
count-fuel (suc m) zero [] k hm hn = refl
count-fuel (suc m) (suc n) [] k hm hn = refl
count-fuel zero n (c ∷ s) k hm hn = absurd (omega arith)
count-fuel (suc m) zero (c ∷ s) k hm hn = absurd (omega arith)
count-fuel (suc m) (suc n) (c ∷ s) k hm hn = elim (Bool-cases (is_letter c)) [
  | inl letter ↦
      let word = read_word (c ∷ s) in
      let hw = read_word-less c s letter in
      rw
        (
          count-fuel m n s (open_brace k) (omega arith) (omega arith),
          count-fuel m n s (close_brace k) (omega arith) (omega arith),
          count-fuel m n s k (omega arith) (omega arith),
          count-fuel m n word.1 (def_word word.0 k) (omega arith) (omega arith),
        )
        refl
  | inr other ↦ ground (
    arith,
    count-fuel m n s (open_brace k) (omega arith) (omega arith),
    count-fuel m n s (close_brace k) (omega arith) (omega arith),
    count-fuel m n s k (omega arith) (omega arith),
  )
]

strip-plain :
    (n : ℕ) (s : Text) → All (λ b. ((b == b'#') ≡ false) × ((b == b'"') ≡ false)) (strip n s)
unfolding strip
strip-plain zero s = tt
strip-plain (suc n) [] = tt
strip-plain (suc n) (c ∷ s) =
    ground (arith, strip-plain n (skip_line s), strip-plain n (skip_quoted s), strip-plain n s)

-- What is left of a document after stripGraphQL has no "#" and no quote.
pub strip_graphql-plain :
    (doc : Text) → All (λ b. ((b == b'#') ≡ false) × ((b == b'"') ≡ false)) (strip_graphql doc)
unfolding strip_graphql
strip_graphql-plain doc = strip-plain (length doc) doc
