-- ===== src/LinearGraphql/Rounds.antt =====
-- The loops of internal/tools/lineargql/parse.go as relations: their runs, round by round.
use my_symphony.LinearGraphql.Parse.{
  strip, strip_graphql, skip_quoted, skip_line, read_word, open_brace, is_letter, def_word,
  count_start, count_operations, close_brace, Counter,
}
use my_symphony.Base.{
  ◌≤◌, ◌≡◌, ◌∷◌, ◌==◌, ◌&&◌, ℕ, zero, true, suc, length, if_elim, false, arith, [],
}
use my_symphony.LinearGraphql.Strip.{skip_quoted-le, skip_line-le, read_word-less}
use my_symphony.Go.Utf8.{Text}
use my_symphony.LinearGraphql.Parse.{count}

-- The runs of the loop of stripGraphQL: a text with what is left of it at the end, one constructor for
-- each case of a round.
pub data Strips : Text → Text → Type 0 where
  strips_end : Strips [] []
  hides_comment :
      {s out : Text} (c : ℕ) → (c == b'#') ≡ true → Strips (skip_line s) out → Strips (c ∷ s) out
  hides_string :
      {s out : Text} (c : ℕ)
      → (c == b'"') ≡ true
      → Strips (skip_quoted s) out
      → Strips (c ∷ s) (b' ' ∷ out)
  keeps_byte :
      {s out : Text} (c : ℕ)
      → (c == b'#') ≡ false
      → (c == b'"') ≡ false
      → Strips s out
      → Strips (c ∷ s) (c ∷ out)

strip-Strips : (n : ℕ) (s : Text) → length s ≤ n → Strips s (strip n s)
unfolding strip
strip-Strips zero [] h = strips_end
strip-Strips zero (c ∷ s) h = absurd (omega arith)
strip-Strips (suc n) [] h = strips_end
strip-Strips (suc n) (c ∷ s) h =
    let hc = skip_line-le s in
    let hq = skip_quoted-le s in
    if_elim (Strips (c ∷ s)) (c == b'#')
      (λ hash. hides_comment c hash (strip-Strips n (skip_line s) (omega arith)))
      (λ no_hash.
        if_elim (Strips (c ∷ s)) (c == b'"')
          (λ quote. hides_string c quote (strip-Strips n (skip_quoted s) (omega arith)))
          (λ no_quote. keeps_byte c no_hash no_quote (strip-Strips n s (omega arith))))

-- The runs of the loop of countOperations: a text, the state before it and the count at the end.
pub data Counts : Text → Counter → ℕ → Type 0 where
  counts_end : (k : Counter) → Counts [] k k.ops
  counts_open :
      {s : Text} {k : Counter} {n : ℕ} (c : ℕ)
      → (c == b'{') ≡ true
      → Counts s (open_brace k) n
      → Counts (c ∷ s) k n
  counts_close :
      {s : Text} {k : Counter} {n : ℕ} (c : ℕ)
      → (c == b'}') ≡ true
      → Counts s (close_brace k) n
      → Counts (c ∷ s) k n
  counts_word :
      {k : Counter} {n : ℕ} (c : ℕ) (s : Text)
      → k.depth ≡ 0
      → k.at_def_start ≡ true
      → is_letter c ≡ true
      → Counts (read_word (c ∷ s)).1 (def_word (read_word (c ∷ s)).0 k) n
      → Counts (c ∷ s) k n
  counts_other :
      {s : Text} {k : Counter} {n : ℕ} (c : ℕ)
      → (c == b'{') ≡ false
      → (c == b'}') ≡ false
      → (k.depth == 0 && k.at_def_start && is_letter c) ≡ false
      → Counts s k n
      → Counts (c ∷ s) k n

count-Counts : (m : ℕ) (s : Text) (k : Counter) → length s ≤ m → Counts s k (count m s k)
unfolding count
count-Counts zero [] k h = counts_end k
count-Counts zero (c ∷ s) k h = absurd (omega arith)
count-Counts (suc m) [] k h = counts_end k
count-Counts (suc m) (c ∷ s) k h =
    let fits : length s ≤ m = omega arith in
    if_elim (Counts (c ∷ s) k) (c == b'{')
      (λ e. counts_open c e (count-Counts m s (open_brace k) fits))
      (λ no_open.
        if_elim (Counts (c ∷ s) k) (c == b'}')
          (λ e. counts_close c e (count-Counts m s (close_brace k) fits))
          (λ no_close.
            if_elim (Counts (c ∷ s) k) (k.depth == 0 && k.at_def_start && is_letter c)
              (λ e.
                let letter : is_letter c ≡ true = ground arith in
                let shorter = read_word-less c s letter in
                counts_word c s (ground arith) (ground arith) letter (
                  count-Counts m (read_word (c ∷ s)).1 (def_word (read_word (c ∷ s)).0 k)
                    (omega arith)))
              (λ e. counts_other c no_open no_close e (count-Counts m s k fits))))

-- The loops of countOperations end on every document: from its start stripGraphQL has a finite run of
-- rounds to the text that it returns, and from there the count has one to the number that is returned.
pub count_operations-Counts :
    (doc : Text)
    → Strips doc (strip_graphql doc) × Counts (strip_graphql doc) count_start (count_operations doc)
unfolding count_operations strip_graphql
count_operations-Counts doc =
    let s = strip (length doc) doc in
    (
      strip-Strips (length doc) doc (omega arith),
      count-Counts (length s) s count_start (omega arith),
    )
