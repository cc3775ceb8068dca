-- ===== src/LinearGraphql/Document.antt =====
-- The documents that countOperations of internal/tools/lineargql/parse.go is to count: definitions
-- with balanced bodies, written without comments and strings.
use my_symphony.LinearGraphql.Parse.{is_letter}
use my_symphony.Go.Utf8.{Text, ascii}
use my_symphony.Base.{
  ◌≡◌, ◌∷◌, ◌||◌, ◌==◌, ◌+◌, ◌++◌, ℕ, true, suc, not, if◌then◌else◌, false, [], List, Bool, All,
}

-- The text between two braces of a pair.
pub data Body : Type 0 where
  done : Body
  byte : ℕ → Body → Body
  nest : Body → Body → Body

pub data Keyword : Type 0 where
  query : Keyword
  mutation : Keyword
  subscription : Keyword
  fragment : Keyword

-- A definition, after the gap before it: a keyword with the text up to its body, or a body alone.
pub data Definition : Type 0 where
  anonymous : Text → Body → Definition
  named : Text → Keyword → Text → Body → Definition

abbrev pub keyword : Keyword → Text
keyword query = ascii "query"
keyword mutation = ascii "mutation"
keyword subscription = ascii "subscription"
keyword fragment = ascii "fragment"

-- What is printed, before the rest of the document.
abbrev pub print_body : Body → Text → Text
print_body done rest = rest
print_body (byte c b) rest = c ∷ print_body b rest
print_body (nest a b) rest = b'{' ∷ print_body a (b'}' ∷ print_body b rest)

abbrev pub print : List Definition → Text
print [] = []
print (anonymous gap b ∷ ds) = gap ++ b'{' ∷ print_body b (b'}' ∷ print ds)
print (named gap k header b ∷ ds) =
    gap ++ (keyword k ++ b' ' ∷ (header ++ b'{' ∷ print_body b (b'}' ∷ print ds)))

abbrev pub is_fragment : Keyword → Bool
is_fragment fragment = true
is_fragment _ = false

abbrev pub operations : List Definition → ℕ
operations [] = 0
operations (anonymous _ _ ∷ ds) = suc (operations ds)
operations (named _ k _ _ ∷ ds) = (if is_fragment k then 0 else 1) + operations ds

-- A byte that is none of "{", "}", "#" and a quote; in a gap, no letter either.
abbrev pub is_plain : ℕ → Bool
is_plain c = not (c == b'{' || c == b'}' || c == b'#' || c == b'"')

abbrev pub Plain : Text → Type 0
Plain s = All (λ c. is_plain c ≡ true) s

abbrev pub Gap : Text → Type 0
Gap s = All (λ c. (is_plain c ≡ true) × (is_letter c ≡ false)) s

abbrev pub IsBody : Body → Type 0
IsBody done = Unit
IsBody (byte c b) = (is_plain c ≡ true) × IsBody b
IsBody (nest a b) = IsBody a × IsBody b

abbrev pub IsDefinition : Definition → Type 0
IsDefinition (anonymous gap b) = Gap gap × IsBody b
IsDefinition (named gap k header b) = Gap gap × Plain header × IsBody b
