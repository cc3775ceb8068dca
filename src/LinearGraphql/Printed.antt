-- ===== src/LinearGraphql/Printed.antt =====
-- countOperations of internal/tools/lineargql/parse.go on printed documents.
use my_symphony.LinearGraphql.Document.{
  Body, Keyword, Definition, done, byte, nest, query, mutation, subscription, fragment, anonymous,
  named, keyword, is_plain, Plain, Gap, IsBody, IsDefinition, print_body, print, operations,
}
use my_symphony.LinearGraphql.Definitions.{counted-print}
use my_symphony.LinearGraphql.Parse.{strip, strip_graphql, count_operations}
use my_symphony.Go.Utf8.{Text}
use my_symphony.Base.{
  ◌≡◌, ◌∷◌, ◌∙◌, ◌==◌, ◌++◌, true, refl, length, false, arith, all, [], List, All,
}

-- Plain text is left as it is.
abbrev IsKept : Text → Type 0
IsKept s = All (λ c. ((c == b'#') ≡ false) × ((c == b'"') ≡ false)) s

strip-kept : (s : Text) → IsKept s → strip (length s) s ≡ s
unfolding strip
strip-kept [] h = refl
strip-kept (c ∷ s) h = ground (arith, strip-kept s h.1)

IsKept-of_Plain : (s rest : Text) → Plain s → IsKept rest → IsKept (s ++ rest)
IsKept-of_Plain [] rest h hr = hr
IsKept-of_Plain (c ∷ s) rest h hr = ((ground arith, ground arith), IsKept-of_Plain s rest h.1 hr)

IsKept-of_Gap : (s rest : Text) → Gap s → IsKept rest → IsKept (s ++ rest)
IsKept-of_Gap [] rest h hr = hr
IsKept-of_Gap (c ∷ s) rest h hr =
    let plain = h.0.0 in ((ground arith, ground arith), IsKept-of_Gap s rest h.1 hr)

print_body-IsKept : (b : Body) (rest : Text) → IsBody b → IsKept rest → IsKept (print_body b rest)
print_body-IsKept done rest h hr = hr
print_body-IsKept (byte c b) rest h hr =
    ((ground arith, ground arith), print_body-IsKept b rest h.1 hr)
print_body-IsKept (nest x y) rest h hr = (
  (refl, refl),
  print_body-IsKept x (b'}' ∷ print_body y rest) h.0
      ((refl, refl), print_body-IsKept y rest h.1 hr),
)

Plain-of_all : (s : Text) → all is_plain s ≡ true → Plain s
Plain-of_all [] h = tt
Plain-of_all (c ∷ s) h = (ground arith, Plain-of_all s (ground arith))

keyword-Plain : (k : Keyword) → Plain (keyword k)
keyword-Plain query = Plain-of_all (keyword query) refl
keyword-Plain mutation = Plain-of_all (keyword mutation) refl
keyword-Plain subscription = Plain-of_all (keyword subscription) refl
keyword-Plain fragment = Plain-of_all (keyword fragment) refl

print-IsKept : (ds : List Definition) → All IsDefinition ds → IsKept (print ds)
print-IsKept [] h = tt
print-IsKept (anonymous gap b ∷ ds) h =
    IsKept-of_Gap gap (b'{' ∷ print_body b (b'}' ∷ print ds)) h.0.0 (
      (refl, refl),
      print_body-IsKept b (b'}' ∷ print ds) h.0.1 ((refl, refl), print-IsKept ds h.1),
    )
print-IsKept (named gap k header b ∷ ds) h =
    let braces = b'{' ∷ print_body b (b'}' ∷ print ds) in
    IsKept-of_Gap gap (keyword k ++ b' ' ∷ (header ++ braces)) h.0.0 (
      IsKept-of_Plain (keyword k) (b' ' ∷ (header ++ braces)) (keyword-Plain k) (
        (refl, refl),
        IsKept-of_Plain header braces h.0.1 (
          (refl, refl),
          print_body-IsKept b (b'}' ∷ print ds) h.0.2 ((refl, refl), print-IsKept ds h.1),
        ),
      ))

-- In a document of definitions, written with gaps without letters, a blank after each keyword, headers
-- without braces, bodies with balanced braces, and neither comments nor strings, countOperations
-- counts the queries, the mutations, the subscriptions and the anonymous bodies, and no fragment.
pub count_operations-print :
    (ds : List Definition) → All IsDefinition ds → count_operations (print ds) ≡ operations ds
unfolding count_operations strip_graphql
count_operations-print ds h =
    rw (strip-kept (print ds) (print-IsKept ds h)) (counted-print ds 0 h ∙ omega arith)
