-- ===== src/LinearGraphql/Parse.antt =====
-- internal/tools/lineargql/parse.go: the count of a document's operations.
-- An index into the document is the rest of the document from there. A loop runs on fuel, and the
-- length of the document is enough: each round takes a byte at least.
use my_symphony.Go.Utf8.{Text, ascii, text_eq}
use my_symphony.Base.{
  ◌≡◌, ◌∷◌, ◌||◌, ◌==◌, ◌-◌, ◌+◌, ◌&&◌, ℕ, zero, true, suc, refl, length, leb, if◌then◌else◌, false,
  [], Bool,
}

-- isLetter.
unfoldable pub is_letter : ℕ → Bool
is_letter c = (leb b'a' c && leb c b'z') || (leb b'A' c && leb c b'Z') || c == b'_'

unfoldable pub is_word_byte : ℕ → Bool
unfolding is_letter
is_word_byte c = is_letter c || (leb b'0' c && leb c b'9')

-- readWord: the word, and the rest after it.
unfoldable pub read_word : Text → Text × Text
unfolding is_word_byte
read_word [] = ([], [])
read_word (c ∷ s) =
    let (word, rest) = read_word s in if is_word_byte c then (c ∷ word, rest) else ([], c ∷ s)

-- To the end of a comment's line.
unfoldable pub skip_line : Text → Text
skip_line [] = []
skip_line (c ∷ s) = if c == b'\n' then c ∷ s else skip_line s

-- Past the end of a block string.
unfoldable pub skip_block : Text → Text
skip_block (a ∷ b ∷ c ∷ s) =
    if a == b'"' && b == b'"' && c == b'"' then s else skip_block (b ∷ c ∷ s)
skip_block _ = []

-- Past the end of a string, whose escapes are two bytes.
unfoldable pub skip_string : Text → Text
skip_string [] = []
skip_string (c ∷ []) = []
skip_string (c ∷ d ∷ s) =
    let after_escape = skip_string s in
    let after_byte = skip_string (d ∷ s) in
    if c == b'"' then d ∷ s else if c == b'\\' then after_escape else after_byte

-- A string of either kind, after its first quote.
unfoldable pub skip_quoted : Text → Text
unfolding skip_block skip_string
skip_quoted (a ∷ b ∷ s) = if a == b'"' && b == b'"' then skip_block s else skip_string (a ∷ b ∷ s)
skip_quoted s = skip_string s

-- stripGraphQL.
unfoldable pub strip : ℕ → Text → Text
unfolding skip_line skip_quoted
strip zero s = []
strip (suc fuel) [] = []
strip (suc fuel) (c ∷ s) =
    let comment = strip fuel (skip_line s) in
    let quoted = strip fuel (skip_quoted s) in
    let plain = strip fuel s in
    if c == b'#' then comment else if c == b'"' then b' ' ∷ quoted else c ∷ plain

unfoldable pub strip_graphql : Text → Text
unfolding strip
strip_graphql s = strip (length s) s

unfoldable pub is_operation : Text → Bool
unfolding text_eq
is_operation word =
    text_eq word (ascii "query")
    || text_eq word (ascii "mutation")
    || text_eq word (ascii "subscription")

-- The state of the count: `ops`, `depth` and `atDefStart`.
pub record Counter : Type 0 where
  pub ops : ℕ
  pub depth : ℕ
  pub at_def_start : Bool

-- The cases `{`, `}` and a word at the start of a definition.
unfoldable pub open_brace : Counter → Counter
open_brace k =
    let anonymous = k.depth == 0 && k.at_def_start in
    record {
      ops = if anonymous then k.ops + 1 else k.ops;
      depth = k.depth + 1;
      at_def_start = if anonymous then false else k.at_def_start;
    }

unfoldable pub close_brace : Counter → Counter
close_brace k = record {
  ops = k.ops;
  depth = k.depth - 1;
  at_def_start = if k.depth - 1 == 0 then true else k.at_def_start;
}

unfoldable pub def_word : Text → Counter → Counter
unfolding is_operation text_eq
def_word word k =
    if is_operation word
    then record k { ops = k.ops + 1; at_def_start = false }
    else if text_eq word (ascii "fragment")
    then record k { at_def_start = false }
    else k

unfoldable pub count : ℕ → Text → Counter → ℕ
count zero s k = k.ops
count (suc fuel) [] k = k.ops
count (suc fuel) (c ∷ s) k =
    let (word, rest) = read_word (c ∷ s) in
    let opened = count fuel s (open_brace k) in
    let closed = count fuel s (close_brace k) in
    let named = count fuel rest (def_word word k) in
    let skipped = count fuel s k in
    if c == b'{'
    then opened
    else if c == b'}'
    then closed
    else if k.depth == 0 && k.at_def_start && is_letter c
    then named
    else skipped

abbrev pub count_start : Counter
count_start = record { ops = 0; depth = 0; at_def_start = true }

-- countOperations.
unfoldable pub count_operations : Text → ℕ
unfolding count open_brace close_brace def_word read_word is_letter strip_graphql
count_operations doc = let s = strip_graphql doc in count (length s) s count_start

one_named_test : count_operations (ascii "query { viewer { id } }") ≡ 1
unfolding count_operations
one_named_test = refl

one_anonymous_test : count_operations (ascii "{ viewer { id } }") ≡ 1
unfolding count_operations
one_anonymous_test = refl

two_test : count_operations (ascii "query A { a } query B { b }") ≡ 2
unfolding count_operations
two_test = refl

fragment_test : count_operations (ascii "query A { a }\nfragment F on T { x }") ≡ 1
unfolding count_operations
fragment_test = refl

comment_test : count_operations (ascii "# a query keyword\nquery { a(s: \"{\\\"\") }") ≡ 1
unfolding count_operations
comment_test = refl

-- A brace in a header ends the definition for the counter, or starts one.
default_test : count_operations (ascii "query Q($x: In = {a: 1}) { a }") ≡ 2
unfolding count_operations
default_test = refl

directive_test : count_operations (ascii "fragment F on T @d(x: {y: 1}) { a }") ≡ 1
unfolding count_operations
directive_test = refl
