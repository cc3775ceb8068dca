-- ===== src/Prompt/Strict.antt =====
-- What the strict check says of templates of plain text and outputs.
use my_symphony.Go.Utf8.{ascii, pieces, text_eq, Text}
use my_symphony.Go.Strings.{
  trim_space, trim_pieces, bytes_of, trim_prefix, has_prefix, split, begin_with,
}
use my_symphony.Prompt.Scan.{is_ident_start, is_ident_byte}
use my_symphony.Base.{
  ◌∙◌, sym, inr, inl, ap, Bool-cases, ◌||◌, ℕ, some, if_elim, Option, append_nil, subst, length,
  drop, ◌≡◌, ◌∷◌, ◌==◌, ◌++◌, true, refl, not, none, false, arith, all, [], List, All-append, All,
}
use my_symphony.Prompt.Roots.{
  variable_roots, strip_string_literals, locs, roots_in_value, roots_in_pipeline, roots_in_filters,
  roots_among, expression_of, liquid_keywords, has_word, strip_from, is_quote, is_keyword,
}
use my_symphony.Go.Ascii.{trim_space-padded, string_fields-visible, is_visible, IsVisible}
use my_symphony.Prompt.Document.{
  inner, output, inner-inner, dots-inner, Output, IsPlain, IsName-inner, dots, is_inner, IsName,
}
use my_symphony.Go.Strconv.{is_digit}
use my_symphony.Prompt.Checked.{roots_of, roots_in_value-path}

strip_from-inner : (s : Text) → All (λ b. is_inner b ≡ true) s → strip_from none s ≡ s
unfolding strip_from is_quote is_inner
strip_from-inner [] h = refl
strip_from-inner (b ∷ s) h =
    let quote : is_quote b ≡ false = ground (arith, h.0) in rw (quote, strip_from-inner s h.1) refl

split-inner : (s : Text) → All (λ b. is_inner b ≡ true) s → split b'|' s ≡ s ∷ []
unfolding split begin_with is_inner
split-inner [] h = refl
split-inner (b ∷ s) h =
    let bar : (b == b'|') ≡ false = ground (arith, h.0) in rw (bar, split-inner s h.1) refl

ident-IsVisible : (s : Text) → All (λ c. is_ident_byte c ≡ true) s → IsVisible s
unfolding is_visible is_ident_byte is_ident_start is_digit
ident-IsVisible [] h = tt
ident-IsVisible (b ∷ s) h = (ground (arith, h.0), ident-IsVisible s h.1)

IsName-ident : (s : Text) → IsName s → All (λ c. is_ident_byte c ≡ true) s
unfolding is_ident_byte
IsName-ident [] h = tt
IsName-ident (b ∷ s) h = (ground (arith, h.0), h.1)

dots-IsVisible : (ps : List Text) → All IsName ps → IsVisible (dots ps)
unfolding is_visible
dots-IsVisible [] h = tt
dots-IsVisible (p ∷ ps) h = (
  refl,
  All-append (λ b. is_visible b ≡ true) p (dots ps) (ident-IsVisible p (IsName-ident p h.0))
      (dots-IsVisible ps h.1),
)

-- A word with a dot in it is no keyword.
text_eq-dot : (x r s : Text) → all (λ b. not (b == 46)) x ≡ true → text_eq x (r ++ 46 ∷ s) ≡ false
unfolding text_eq
text_eq-dot [] [] s h = refl
text_eq-dot [] (b ∷ r) s h = refl
text_eq-dot (c ∷ x) [] s h = ground arith
text_eq-dot (c ∷ x) (b ∷ r) s h = ground (arith, text_eq-dot x r s)

has_word-dot :
    (ws : List Text) (r s : Text)
    → all (λ x. all (λ b. not (b == 46)) x) ws ≡ true
    → has_word ws (r ++ 46 ∷ s) ≡ false
unfolding has_word
has_word-dot [] r s h = refl
has_word-dot (x ∷ ws) r s h = ground (arith, text_eq-dot x r s, has_word-dot ws r s)

is_keyword-path :
    (r : Text) (ps : List Text) → is_keyword (r ++ dots ps) ≡ true → is_keyword r ≡ true
unfolding is_keyword
is_keyword-path r [] h = subst (λ s. is_keyword s ≡ true) (append_nil r) h
is_keyword-path r (p ∷ ps) h =
    absurd (ground (arith, h, has_word-dot liquid_keywords r (p ++ dots ps) refl))

trim_prefix_self : (s : Text) → trim_prefix s s ≡ []
unfolding trim_prefix has_prefix
trim_prefix_self s = rw (has_prefix-self s) (drop-all s)
  where
    has_prefix-self : (t : Text) → has_prefix t t ≡ true
    has_prefix-self [] = refl
    has_prefix-self (b ∷ t) = ground (arith, has_prefix-self t)

    drop-all : (t : Text) → drop (length t) t ≡ []
    drop-all [] = refl
    drop-all (b ∷ t) = drop-all t

-- The roots of what expression_of leaves.
abbrev roots_left : Option Text → List Text
roots_left none = []
roots_left (some value) = roots_in_pipeline (split b'|' value)

roots_left-empty : roots_left (some []) ≡ []
unfolding roots_in_pipeline roots_in_value roots_in_filters split locs roots_among
roots_left-empty = refl

expression_of-keyword :
    (b : ℕ) (s : Text)
    → IsVisible (b ∷ s)
    → is_keyword (b ∷ s) ≡ true
    → roots_left (expression_of (b ∷ s)) ≡ []
unfolding expression_of trim_space trim_pieces pieces bytes_of
expression_of-keyword b s h k =
    rw (string_fields-visible b s h, expression_of, k, trim_prefix_self (b ∷ s))
      (if_elim (λ e. roots_left e ≡ []) (text_eq (b ∷ s) (ascii "assign")) (λ _. roots_left-empty)
        (λ _.
          if_elim (λ e. roots_left e ≡ [])
            (text_eq (b ∷ s) (ascii "for") || text_eq (b ∷ s) (ascii "tablerow"))
            (λ _. roots_left-empty)
            (λ _.
              if_elim (λ e. roots_left e ≡ []) (text_eq (b ∷ s) (ascii "capture")) (λ _. refl)
                (λ _. roots_left-empty))))

expression_of-other :
    (b : ℕ) (s : Text)
    → IsVisible (b ∷ s)
    → is_keyword (b ∷ s) ≡ false
    → expression_of (b ∷ s) ≡ some (b ∷ s)
unfolding expression_of
expression_of-other b s h k = rw (string_fields-visible b s h, expression_of, k) refl

roots_left-path :
    (b : ℕ) (w : Text) (o : Output)
    → o.root ≡ b ∷ w
    → IsPlain (output o)
    → IsVisible (b ∷ w ++ dots o.props)
    → roots_left (expression_of (b ∷ w ++ dots o.props)) ≡ roots_of o
unfolding roots_in_pipeline roots_in_filters
roots_left-path b w o e h v = elim (Bool-cases (is_keyword (b ∷ w ++ dots o.props))) [
  | inl k ↦
      let root_too : is_keyword o.root ≡ true = is_keyword-path o.root o.props (rw e k) in
      expression_of-keyword b (w ++ dots o.props) v k ∙ rw root_too refl
  | inr k ↦
      let inner_path : All (λ c. is_inner c ≡ true) (b ∷ w ++ dots o.props) =
        subst (λ r. All (λ c. is_inner c ≡ true) (r ++ dots o.props)) e
          (All-append (λ c. is_inner c ≡ true) o.root (dots o.props) (IsName-inner o.root h.0)
            (dots-inner o.props h.1)) in
      ap roots_left (expression_of-other b (w ++ dots o.props) v k)
      ∙ ap roots_in_pipeline (split-inner (b ∷ w ++ dots o.props) inner_path)
      ∙ append_nil (roots_in_value (b ∷ w ++ dots o.props))
      ∙ ap (λ r. roots_in_value (r ++ dots o.props)) (sym e)
      ∙ roots_in_value-path o h
]

-- The roots of the expression of an output.
pub variable_roots-inner : (o : Output) → IsPlain (output o) → variable_roots (inner o) ≡ roots_of o
unfolding variable_roots strip_string_literals
variable_roots-inner o h = named o.root refl h.0
  where
    named :
        (r : Text)
        → o.root ≡ r
        → IsName r
        → roots_left (expression_of (trim_space (strip_from none (inner o)))) ≡ roots_of o
    named [] e k = absurd (ground arith)
    named (b ∷ w) e k =
        let v : IsVisible (b ∷ w ++ dots o.props) =
          All-append (λ c. is_visible c ≡ true) (b ∷ w) (dots o.props)
            (ident-IsVisible (b ∷ w) (IsName-ident (b ∷ w) k)) (dots-IsVisible o.props h.1) in
        ap (λ t. roots_left (expression_of (trim_space t)))
          (strip_from-inner (inner o) (inner-inner o h))
        ∙ ap (λ r. roots_left (expression_of (trim_space (32 ∷ (r ++ dots o.props) ++ (32 ∷ [])))))
            e
        ∙ ap (λ t. roots_left (expression_of t)) (trim_space-padded b (w ++ dots o.props) v)
        ∙ roots_left-path b w o e h v
