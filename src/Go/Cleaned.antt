-- ===== src/Go/Cleaned.antt =====
-- What Clean of package path/filepath leaves of an absolute path.
use my_symphony.Go.Filepath.{
  split_slash, clean_step, clean_parts, join_slash, is_abs, elements, clean,
}
use my_symphony.Go.Utf8.{ascii, text_eq, is_blank, Text}
use my_symphony.Base.{
  subst, ◌≡◌, ◌∷◌, ◌∙◌, ◌||◌, ◌==◌, ◌++◌, true, sym, refl, if◌then◌else◌, false, ap, [], List, Bool,
  All, Bool-cases, inl, inr, ℕ,
}
use mathlib.Core.List.{reverse, reverse_aux, reverse-cons, reverse-reverse}

-- A text without a separator.
abbrev pub NoSlash : Text → Type 0
NoSlash p = All (λ b. (b == b'/') ≡ false) p

-- An element that Clean keeps: no separator, and neither empty nor "." nor "..".
abbrev pub IsName : Text → Type 0
IsName p =
    ((is_blank p || text_eq p (ascii ".")) ≡ false) × (text_eq p (ascii "..") ≡ false) × NoSlash p

-- A byte before the first part.
glue : ℕ → List Text → List Text
glue b [] = (b ∷ []) ∷ []
glue b (p ∷ ps) = (b ∷ p) ∷ ps

split_slash-glue :
    (b : ℕ) (s : Text) → (b == b'/') ≡ false → split_slash (b ∷ s) ≡ glue b (split_slash s)
unfolding split_slash glue
split_slash-glue b s h = elim (split_slash s) [ [] ↦ rw h refl | p ∷ ps ↦ rw h refl ]

split_slash-sep : (s : Text) → split_slash (b'/' ∷ s) ≡ [] ∷ split_slash s
unfolding split_slash
split_slash-sep s = refl

-- A text has a part at least.
split_slash-cons : (s : Text) → (p : Text) × (ps : List Text) × (split_slash s ≡ p ∷ ps)
unfolding split_slash glue
split_slash-cons [] = ([], [], refl)
split_slash-cons (b ∷ s) = elim (Bool-cases (b == b'/')) [
  | inl sep ↦ ([], split_slash s, rw sep refl)
  | inr other ↦
      let (p, ps, e) = split_slash-cons s in (b ∷ p, ps, split_slash-glue b s other ∙ rw e refl)
]

-- A text without separators before another, which begins with one.
split_slash-part : (p s : Text) → NoSlash p → split_slash (p ++ b'/' ∷ s) ≡ p ∷ split_slash s
unfolding glue
split_slash-part [] s h = split_slash-sep s
split_slash-part (b ∷ p) s h =
    split_slash-glue b (p ++ b'/' ∷ s) h.0 ∙ rw (split_slash-part p s h.1) refl

split_slash-one : (p : Text) → NoSlash p → split_slash p ≡ p ∷ []
unfolding split_slash glue
split_slash-one [] h = refl
split_slash-one (b ∷ p) h = split_slash-glue b p h.0 ∙ rw (split_slash-one p h.1) refl

split_slash-append :
    (a p : Text) → NoSlash p → split_slash (a ++ b'/' ∷ p) ≡ split_slash a ++ (p ∷ [])
unfolding glue split_slash
split_slash-append [] p h = split_slash-sep p ∙ ap (λ ps. [] ∷ ps) (split_slash-one p h)
split_slash-append (b ∷ a) p h = elim (Bool-cases (b == b'/')) [
  | inl sep ↦ rw sep (ap (λ ps. [] ∷ ps) (split_slash-append a p h))
  | inr other ↦
      let (q, qs, e) = split_slash-cons a in
      split_slash-glue b (a ++ b'/' ∷ p) other
      ∙ ap (glue b) (split_slash-append a p h ∙ ap (λ ps. ps ++ (p ∷ [])) e)
      ∙ ap (λ ps. ps ++ (p ∷ [])) (sym (split_slash-glue b a other ∙ ap (glue b) e))
]

split_slash-NoSlash : (s : Text) → All NoSlash (split_slash s)
unfolding split_slash glue
split_slash-NoSlash [] = (tt, tt)
split_slash-NoSlash (b ∷ s) = elim (Bool-cases (b == b'/')) [
  | inl sep ↦ rw sep (tt, split_slash-NoSlash s)
  | inr other ↦
      let (p, ps, e) = split_slash-cons s in
      let all : All NoSlash (p ∷ ps) = subst (All NoSlash) e (split_slash-NoSlash s) in
      rw (split_slash-glue b s other, e) ((other, all.0), all.1)
]

split_slash-join :
    (p : Text) (ps : List Text) → All NoSlash (p ∷ ps) → split_slash (join_slash (p ∷ ps)) ≡ p ∷ ps
unfolding join_slash
split_slash-join p [] h = split_slash-one p h.0
split_slash-join p (q ∷ ps) h =
    split_slash-part p (join_slash (q ∷ ps)) h.0 ∙ ap (λ qs. p ∷ qs) (split_slash-join q ps h.1)

clean_parts-append :
    (out ps qs : List Text)
    → clean_parts true out (ps ++ qs) ≡ clean_parts true (clean_parts true out ps) qs
unfolding clean_parts
clean_parts-append out [] qs = refl
clean_parts-append out (p ∷ ps) qs = clean_parts-append (clean_step true out p) ps qs

clean_step-name : (out : List Text) (p : Text) → IsName p → clean_step true out p ≡ p ∷ out
unfolding clean_step
clean_step-name out p h = rw (h.0, h.1) refl

clean_parts-names :
    (out ps : List Text) → All IsName ps → clean_parts true out ps ≡ reverse_aux ps out
unfolding clean_parts
clean_parts-names out [] h = refl
clean_parts-names out (p ∷ ps) h =
    ap (λ o. clean_parts true o ps) (clean_step-name out p h.0) ∙ clean_parts-names (p ∷ out) ps h.1

clean_step-IsName :
    (out : List Text) (p : Text) → All IsName out → NoSlash p → All IsName (clean_step true out p)
unfolding clean_step
clean_step-IsName [] p h no_slash = elim (Bool-cases (is_blank p || text_eq p (ascii "."))) [
  | inl e ↦ rw e tt
  | inr e ↦ elim (Bool-cases (text_eq p (ascii ".."))) [
    | inl up ↦ rw (e, up) tt
    | inr name ↦ rw (e, name) ((e, name, no_slash), tt)
  ]
]
clean_step-IsName (q ∷ qs) p h no_slash = elim (Bool-cases (is_blank p || text_eq p (ascii "."))) [
  | inl e ↦ rw e h
  | inr e ↦ elim (Bool-cases (text_eq p (ascii ".."))) [
    | inl up ↦ rw (e, up, h.0.1) h.1
    | inr name ↦ rw (e, name) ((e, name, no_slash), h)
  ]
]

clean_parts-IsName :
    (out ps : List Text) → All IsName out → All NoSlash ps → All IsName (clean_parts true out ps)
unfolding clean_parts
clean_parts-IsName out [] h no_slash = h
clean_parts-IsName out (p ∷ ps) h no_slash =
    clean_parts-IsName (clean_step true out p) ps (clean_step-IsName out p h no_slash.0) no_slash.1

reverse_aux-IsName :
    (ps out : List Text) → All IsName ps → All IsName out → All IsName (reverse_aux ps out)
reverse_aux-IsName [] out h k = k
reverse_aux-IsName (p ∷ ps) out h k = reverse_aux-IsName ps (p ∷ out) h.1 (h.0, k)

names-NoSlash : (ps : List Text) → All IsName ps → All NoSlash ps
names-NoSlash [] h = tt
names-NoSlash (p ∷ ps) h = (h.0.2, names-NoSlash ps h.1)

elements-rooted :
    (path : Text)
    → is_abs path ≡ true
    → elements path ≡ reverse (clean_parts true [] (split_slash path))
unfolding elements
elements-rooted path h = rw h refl

-- The names that Clean writes, read again.
elements-written : (ps : List Text) → All IsName ps → elements (b'/' ∷ join_slash ps) ≡ ps
unfolding elements split_slash join_slash is_abs clean_parts clean_step
elements-written [] h = refl
elements-written (p ∷ ps) h =
    elements-rooted (b'/' ∷ join_slash (p ∷ ps)) refl
    ∙ ap (λ qs. reverse (clean_parts true [] ([] ∷ qs)))
        (split_slash-join p ps (names-NoSlash (p ∷ ps) h))
    ∙ ap reverse (clean_parts-names [] (p ∷ ps) h)
    ∙ reverse-reverse (p ∷ ps)

if_true {ℓ} : {A : Type ℓ} (b : Bool) (x y : A) → b ≡ true → (if b then x else y) ≡ x
if_true b x y h = rw h refl

clean-rooted : (path : Text) → is_abs path ≡ true → clean path ≡ b'/' ∷ join_slash (elements path)
unfolding clean
clean-rooted path h = if_true (is_abs path) _ _ h

elements-IsName : (path : Text) → is_abs path ≡ true → All IsName (elements path)
elements-IsName path h = subst (All IsName) (sym (elements-rooted path h)) (
    reverse_aux-IsName (clean_parts true [] (split_slash path)) []
      (clean_parts-IsName [] (split_slash path) tt (split_slash-NoSlash path)) tt)

-- Clean keeps the elements of an absolute path.
pub elements-clean : (path : Text) → is_abs path ≡ true → elements (clean path) ≡ elements path
elements-clean path h =
    ap elements (clean-rooted path h) ∙ elements-written (elements path) (elements-IsName path h)

-- A name behind an absolute path is one more element.
pub elements-child :
    (root name : Text)
    → is_abs root ≡ true
    → is_abs (root ++ b'/' ∷ name) ≡ true
    → IsName name
    → elements (root ++ b'/' ∷ name) ≡ elements root ++ (name ∷ [])
unfolding clean_parts
elements-child root name h k is_name =
    elements-rooted (root ++ b'/' ∷ name) k
    ∙ ap (λ ps. reverse (clean_parts true [] ps)) (split_slash-append root name is_name.2)
    ∙ ap reverse (
        clean_parts-append [] (split_slash root) (name ∷ [])
        ∙ clean_step-name (clean_parts true [] (split_slash root)) name is_name)
    ∙ reverse-cons name (clean_parts true [] (split_slash root))
    ∙ ap (λ ps. ps ++ (name ∷ [])) (sym (elements-rooted root h))
