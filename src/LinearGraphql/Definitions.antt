-- ===== src/LinearGraphql/Definitions.antt =====
-- How countOperations of internal/tools/lineargql/parse.go goes through a document's definitions.
use my_symphony.LinearGraphql.Document.{
  Body, Keyword, Definition, done, byte, nest, query, mutation, subscription, fragment, anonymous,
  named, keyword, is_fragment, is_plain, Plain, Gap, IsBody, IsDefinition, print_body, print,
  operations,
}
use my_symphony.LinearGraphql.Parse.{
  read_word, count, Counter, is_letter, is_word_byte, open_brace, close_brace, def_word,
  is_operation,
}
use my_symphony.LinearGraphql.Strip.{count-fuel, read_word-less}
use my_symphony.Go.Utf8.{Text, ascii, text_eq}
use my_symphony.Base.{
  ◌≡◌, ◌∷◌, ◌∙◌, ◌==◌, ◌+◌, ◌++◌, ◌&&◌, ℕ, true, sym, refl, length, if◌then◌else◌, false, arith, ap,
  [], List, Bool, All,
}

abbrev pub at : ℕ → ℕ → Bool → Counter
at ops depth start = record { ops = ops; depth = depth; at_def_start = start }

-- The count from a state, with the fuel that the text needs.
abbrev pub counted : Text → Counter → ℕ
counted s k = count (length s) s k

open-close : (o d : ℕ) (a : Bool) → close_brace (open_brace (at o (d + 1) a)) ≡ at o (d + 1) a
unfolding close_brace open_brace
open-close o d a = ground arith

open-depth : (o d : ℕ) (a : Bool) → open_brace (at o (d + 1) a) ≡ at o (d + 1 + 1) a
unfolding open_brace
open-depth o d a = ground arith

counted-skip :
    (c : ℕ) (s : Text) (k : Counter)
    → is_plain c ≡ true
    → (k.depth == 0 && k.at_def_start && is_letter c) ≡ false
    → counted (c ∷ s) k ≡ counted s k
unfolding count
counted-skip c s k plain no_word = ground arith

counted-open : (s : Text) (k : Counter) → counted (b'{' ∷ s) k ≡ counted s (open_brace k)
unfolding count
counted-open s k = refl

counted-close : (s : Text) (k : Counter) → counted (b'}' ∷ s) k ≡ counted s (close_brace k)
unfolding count
counted-close s k = refl

counted-body :
    (b : Body) (rest : Text) (o d : ℕ) (a : Bool)
    → IsBody b
    → counted (print_body b rest) (at o (d + 1) a) ≡ counted rest (at o (d + 1) a)
counted-body done rest o d a h = refl
counted-body (byte c b) rest o d a h =
    counted-skip c (print_body b rest) (at o (d + 1) a) h.0 (ground arith)
    ∙ counted-body b rest o d a h.1
counted-body (nest x y) rest o d a h =
    let after_x = b'}' ∷ print_body y rest in
    counted-open (print_body x after_x) (at o (d + 1) a)
    ∙ rw (open-depth o d a) (counted-body x after_x o (d + 1) a h.0)
    ∙ counted-close (print_body y rest) (at o (d + 1 + 1) a)
    ∙ ap (counted (print_body y rest)) (ap close_brace (sym (open-depth o d a)) ∙ open-close o d a)
    ∙ counted-body y rest o d a h.1

counted-header :
    (header rest : Text) (o : ℕ)
    → Plain header
    → counted (header ++ rest) (at o 0 false) ≡ counted rest (at o 0 false)
counted-header [] rest o h = refl
counted-header (c ∷ header) rest o h =
    counted-skip c (header ++ rest) (at o 0 false) h.0 refl ∙ counted-header header rest o h.1

counted-Gap :
    (gap rest : Text) (o : ℕ)
    → Gap gap
    → counted (gap ++ rest) (at o 0 true) ≡ counted rest (at o 0 true)
counted-Gap [] rest o h = refl
counted-Gap (c ∷ gap) rest o h =
    counted-skip c (gap ++ rest) (at o 0 true) h.0.0 (ground arith) ∙ counted-Gap gap rest o h.1

-- A body with its braces ends the definition.
counted-braces :
    (b : Body) (rest : Text) (o : ℕ)
    → IsBody b
    → counted (b'{' ∷ print_body b (b'}' ∷ rest)) (at o 0 false) ≡ counted rest (at o 0 true)
unfolding open_brace close_brace
counted-braces b rest o h =
    counted-open (print_body b (b'}' ∷ rest)) (at o 0 false)
    ∙ counted-body b (b'}' ∷ rest) o 0 false h
    ∙ counted-close rest (at o 1 false)

counted-anonymous :
    (b : Body) (rest : Text) (o : ℕ)
    → IsBody b
    → counted (b'{' ∷ print_body b (b'}' ∷ rest)) (at o 0 true) ≡ counted rest (at (o + 1) 0 true)
unfolding open_brace close_brace
counted-anonymous b rest o h =
    counted-open (print_body b (b'}' ∷ rest)) (at o 0 true)
    ∙ counted-body b (b'}' ∷ rest) (o + 1) 0 false h
    ∙ counted-close rest (at (o + 1) 1 false)

counted-word :
    (c : ℕ) (s : Text) (o : ℕ)
    → is_plain c ≡ true
    → is_letter c ≡ true
    → counted (c ∷ s) (at o 0 true)
      ≡ counted (read_word (c ∷ s)).1 (def_word (read_word (c ∷ s)).0 (at o 0 true))
unfolding count
counted-word c s o plain letter =
    let word = read_word (c ∷ s) in
    let fits = read_word-less c s letter in
    ground (
      arith,
      count-fuel (length s) (length word.1) word.1 (def_word word.0 (at o 0 true)) fits
          (omega arith),
    )

read_word-keyword :
    (k : Keyword) (rest : Text) → read_word (keyword k ++ b' ' ∷ rest) ≡ (keyword k, b' ' ∷ rest)
unfolding read_word is_word_byte is_letter
read_word-keyword query rest = refl
read_word-keyword mutation rest = refl
read_word-keyword subscription rest = refl
read_word-keyword fragment rest = refl

def_word-keyword :
    (k : Keyword) (o : ℕ)
    → def_word (keyword k) (at o 0 true) ≡ at (if is_fragment k then o else o + 1) 0 false
unfolding def_word is_operation text_eq
def_word-keyword query o = refl
def_word-keyword mutation o = refl
def_word-keyword subscription o = refl
def_word-keyword fragment o = refl

keyword-letter :
    (k : Keyword) (rest : Text)
    → (c : ℕ) × (s : Text) × (keyword k ++ rest ≡ c ∷ s)
      × (is_plain c ≡ true)
      × (is_letter c ≡ true)
unfolding is_letter
keyword-letter query rest = (b'q', ascii "uery" ++ rest, refl, refl, refl)
keyword-letter mutation rest = (b'm', ascii "utation" ++ rest, refl, refl, refl)
keyword-letter subscription rest = (b's', ascii "ubscription" ++ rest, refl, refl, refl)
keyword-letter fragment rest = (b'f', ascii "ragment" ++ rest, refl, refl, refl)

counted-keyword :
    (k : Keyword) (rest : Text) (o : ℕ)
    → counted (keyword k ++ b' ' ∷ rest) (at o 0 true)
      ≡ counted (b' ' ∷ rest) (at (if is_fragment k then o else o + 1) 0 false)
counted-keyword k rest o =
    let (c, s, e, plain, letter) = keyword-letter k (b' ' ∷ rest) in
    let read = ap read_word (sym e) ∙ read_word-keyword k rest in
    ap (λ t. counted t (at o 0 true)) e
    ∙ counted-word c s o plain letter
    ∙ ap (λ p. counted p.1 (def_word p.0 (at o 0 true))) read
    ∙ ap (counted (b' ' ∷ rest)) (def_word-keyword k o)

-- A definition with a keyword counts, unless it is a fragment.
counted-named :
    (gap : Text) (k : Keyword) (header : Text) (b : Body) (rest : Text) (o : ℕ)
    → IsDefinition (named gap k header b)
    → counted
        (gap ++ (keyword k ++ b' ' ∷ (header ++ b'{' ∷ print_body b (b'}' ∷ rest))))
        (at o 0 true)
      ≡ counted rest (at (if is_fragment k then o else o + 1) 0 true)
counted-named gap k header b rest o h =
    let braces = b'{' ∷ print_body b (b'}' ∷ rest) in
    let o1 = if is_fragment k then o else o + 1 in
    counted-Gap gap (keyword k ++ b' ' ∷ (header ++ braces)) o h.0
    ∙ counted-keyword k (header ++ braces) o
    ∙ counted-skip b' ' (header ++ braces) (at o1 0 false) refl refl
    ∙ counted-header header braces o1 h.1
    ∙ counted-braces b rest o1 h.2

-- From a definition on, a printed document counts its operations.
pub counted-print :
    (ds : List Definition) (o : ℕ)
    → All IsDefinition ds
    → counted (print ds) (at o 0 true) ≡ o + operations ds
unfolding count
counted-print [] o h = omega arith
counted-print (anonymous gap b ∷ ds) o h =
    counted-Gap gap (b'{' ∷ print_body b (b'}' ∷ print ds)) o h.0.0
    ∙ counted-anonymous b (print ds) o h.0.1
    ∙ counted-print ds (o + 1) h.1
    ∙ omega arith
counted-print (named gap k header b ∷ ds) o h =
    let o1 = if is_fragment k then o else o + 1 in
    let total : o1 + operations ds ≡ o + operations (named gap k header b ∷ ds) = ground arith in
    counted-named gap k header b (print ds) o h.0 ∙ counted-print ds o1 h.1 ∙ total
