-- ===== src/Go/Filepath.antt =====
-- The functions of package path/filepath that the program calls, for a Unix system.
use my_symphony.Base.{
  ◌≡◌, ◌∷◌, ◌||◌, ◌>>=◌, ◌==◌, ◌++◌, ◌&&◌, some, refl, ok, not, none, map, if◌then◌else◌, false, [],
  Result, Option, List, Bool,
}
use my_symphony.Go.Utf8.{ascii, text_eq, is_blank, Text}
use mathlib.Core.List.{reverse}

-- strings.Split(path, "/").
unfoldable pub split_slash : Text → List Text
split_slash [] = [] ∷ []
split_slash (b ∷ path) =
    let rest = split_slash path in
    if b == b'/' then [] ∷ rest else elim rest [ [] ↦ (b ∷ []) ∷ [] | p ∷ ps ↦ (b ∷ p) ∷ ps ]

-- The elements of a path under construction, last first.
unfoldable pub clean_step : Bool → List Text → Text → List Text
unfolding text_eq is_blank
clean_step rooted out p =
    if is_blank p || text_eq p (ascii ".")
    then out
    else if text_eq p (ascii "..")
    then elim out [
      | [] ↦ if rooted then [] else p ∷ []
      | q ∷ qs ↦ if text_eq q (ascii "..") then p ∷ q ∷ qs else qs
    ]
    else p ∷ out

unfoldable pub clean_parts : Bool → List Text → List Text → List Text
clean_parts rooted out [] = out
clean_parts rooted out (p ∷ ps) = clean_parts rooted (clean_step rooted out p) ps

unfoldable pub join_slash : List Text → Text
join_slash [] = []
join_slash (p ∷ []) = p
join_slash (p ∷ q ∷ ps) = p ++ b'/' ∷ join_slash (q ∷ ps)

-- IsAbs.
unfoldable pub is_abs : Text → Bool
is_abs [] = false
is_abs (b ∷ path) = b == b'/'

-- The elements of Clean(path).
unfoldable pub elements : Text → List Text
unfolding clean_parts clean_step split_slash is_abs
elements path = reverse (clean_parts (is_abs path) [] (split_slash path))

-- Clean.
unfoldable pub clean : Text → Text
unfolding elements is_abs join_slash is_blank
clean path =
    if is_abs path
    then b'/' ∷ join_slash (elements path)
    else let s = join_slash (elements path) in if is_blank s then ascii "." else s

-- Join of two elements: an empty one is left out.
unfoldable pub join : Text → Text → Text
unfolding clean is_blank
join a b =
    if is_blank a
    then if is_blank b then [] else clean b
    else if is_blank b
    then clean a
    else clean (a ++ b'/' ∷ b)

-- A path up to its last separator.
unfoldable pub up_to_slash : Text → Text
up_to_slash [] = []
up_to_slash (b ∷ s) =
    let rest = up_to_slash s in
    if not (is_blank rest) then b ∷ rest else if b == b'/' then b ∷ [] else []

-- Dir.
unfoldable pub dir : Text → Text
unfolding up_to_slash
dir path = clean (up_to_slash path)

-- Abs, with the working directory, or the error of finding it.
unfoldable pub abs : Result Text Text → Text → Result Text Text
unfolding is_abs clean join
abs getwd path = if is_abs path then ok (clean path) else (getwd >>= λ wd. ok (join wd path))

-- The elements that are left of two paths after those they share.
unfoldable pub strip_shared : List Text → List Text → List Text × List Text
unfolding text_eq
strip_shared [] ts = ([], ts)
strip_shared (b ∷ bs) [] = (b ∷ bs, [])
strip_shared (b ∷ bs) (t ∷ ts) =
    let rest = strip_shared bs ts in if text_eq b t then rest else (b ∷ bs, t ∷ ts)

-- A step up for each element of the base that is not shared; there is none where the first such
-- element is "..".
unfoldable pub rel_parts : List Text → List Text → Option Text
unfolding text_eq join_slash is_blank
rel_parts [] ts = some (let s = join_slash ts in if is_blank s then ascii "." else s)
rel_parts (b ∷ bs) ts =
    if text_eq b (ascii "..")
    then none
    else some (join_slash (ascii ".." ∷ map (λ _. ascii "..") bs ++ ts))

-- Rel.
unfoldable pub rel : Text → Text → Option Text
rel base target =
    let (bs, ts) = strip_shared (elements base) (elements target) in
    if not (is_abs base) && is_abs target || is_abs base && not (is_abs target)
    then none
    else rel_parts bs ts

join_test : join (ascii "/w/./x") (ascii "AB-1") ≡ ascii "/w/x/AB-1"
unfolding join
join_test = refl

join_up_test : join (ascii "/w/x") (ascii "..") ≡ ascii "/w"
unfolding join
join_up_test = refl

rel_test : rel (ascii "/w/x") (ascii "/w/y/z") ≡ some (ascii "../y/z")
unfolding rel elements clean_parts clean_step split_slash is_abs strip_shared rel_parts
rel_test = refl

rel_same_test : rel (ascii "/w/x") (ascii "/w/x") ≡ some (ascii ".")
unfolding rel elements clean_parts clean_step split_slash is_abs strip_shared rel_parts
rel_same_test = refl
