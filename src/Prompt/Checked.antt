-- ===== src/Prompt/Checked.antt =====
-- The strict check on templates of plain text and outputs.
use my_symphony.Go.Utf8.{is_blank, Text}
use my_symphony.Prompt.Document.{output, Output, IsPlain, dots, IsName}
use my_symphony.Base.{
  inr, inl, if_elim, Bool-cases, ◌∙◌, not, if◌then◌else◌, arith, ap, ◌≡◌, ◌∷◌, ◌++◌, ℕ, true, refl,
  length, false, [], List, All,
}
use my_symphony.Prompt.Roots.{
  roots_in_value, last_non_space, is_keyword, first_non_space, Loc, locs, roots_among, is_root,
}
use my_symphony.Prompt.Scan.{is_ident_start, is_ident_byte, ident_rest}
use my_symphony.Go.Strconv.{is_digit}

-- The text is empty or begins with a byte that is none of a name.
abbrev Ends : Text → Type 0
Ends [] = Unit
Ends (b ∷ s) = is_ident_byte b ≡ false

ident_rest-name :
    (w s : Text) → All (λ c. is_ident_byte c ≡ true) w → Ends s → ident_rest (w ++ s) ≡ (w, s)
unfolding ident_rest
ident_rest-name [] [] h k = refl
ident_rest-name [] (b ∷ s) h k = rw k refl
ident_rest-name (c ∷ w) s h k = rw (h.0, ident_rest-name w s h.1 k) refl

dots-Ends : (ps : List Text) → Ends (dots ps)
unfolding is_ident_byte is_ident_start is_digit
dots-Ends [] = tt
dots-Ends (p ∷ ps) = refl

-- The text before a place, from its end.
abbrev onto : Text → Text → Text
onto [] before = before
onto (b ∷ s) before = onto s (b ∷ before)

locs-skip : (xs ys before : Text) → locs (length xs) before (xs ++ ys) ≡ locs 0 (onto xs before) ys
unfolding locs
locs-skip [] ys before = refl
locs-skip (x ∷ xs) ys before = locs-skip xs ys (x ∷ before)

locs-name :
    (b : ℕ) (w s before : Text)
    → IsName (b ∷ w)
    → Ends s
    → locs 0 before (b ∷ w ++ s)
      ≡ record { before = before; name = b ∷ w; after = s } ∷ locs 0 (onto (b ∷ w) before) s
unfolding locs
locs-name b w s before h k =
    rw (h.0, ident_rest-name w s h.1 k, locs, locs-skip w s (b ∷ before)) refl

-- A name behind a dot is no root.
is_root-dot :
    (before name after : Text)
    → is_root (record { before = 46 ∷ before; name = name; after = after }) ≡ false
unfolding is_root last_non_space is_blank
is_root-dot before name after = if_elim (λ x. x ≡ false) (is_keyword name) (λ _. refl) (λ _. refl)

locs-dot : (before s : Text) → locs 0 before (46 ∷ s) ≡ locs 0 (46 ∷ before) s
unfolding locs is_ident_start
locs-dot before s = refl

roots_among-skip :
    (loc : Loc) (rest : List Loc)
    → is_root loc ≡ false
    → roots_among (loc ∷ rest) ≡ roots_among rest
unfolding roots_among
roots_among-skip loc rest h = rw h refl

roots_among-dots :
    (ps : List Text) (before : Text) → All IsName ps → roots_among (locs 0 before (dots ps)) ≡ []
unfolding locs roots_among
roots_among-dots [] before h = refl
roots_among-dots ([] ∷ ps) before h = absurd (ground (arith, h.0))
roots_among-dots ((b ∷ w) ∷ ps) before h =
    let loc : Loc = record { before = 46 ∷ before; name = b ∷ w; after = dots ps } in
    let further = onto (b ∷ w) (46 ∷ before) in
    ap roots_among (
      locs-dot before (b ∷ w ++ dots ps) ∙ locs-name b w (dots ps) (46 ∷ before) h.0 (dots-Ends ps))
    ∙ roots_among-skip loc (locs 0 further (dots ps)) (is_root-dot before (b ∷ w) (dots ps))
    ∙ roots_among-dots ps further h.1

is_root-first :
    (name : Text) (ps : List Text)
    → is_root (record { before = []; name = name; after = dots ps }) ≡ not (is_keyword name)
unfolding is_root first_non_space is_blank
is_root-first name [] = elim (Bool-cases (is_keyword name)) [
  | inl k ↦ rw k refl
  | inr k ↦ rw k refl
]
is_root-first name (p ∷ ps) = elim (Bool-cases (is_keyword name)) [
  | inl k ↦ rw k refl
  | inr k ↦ rw k refl
]

roots_among-first :
    (name : Text) (ps : List Text) (rest : List Loc)
    → roots_among rest ≡ []
    → roots_among (record { before = []; name = name; after = dots ps } ∷ rest)
      ≡ (if is_keyword name then [] else name ∷ [])
unfolding roots_among
roots_among-first name ps rest e = elim (Bool-cases (is_keyword name)) [
  | inl k ↦ rw (is_root-first name ps, k) e
  | inr k ↦ rw (is_root-first name ps, k, e) refl
]

-- The root of an output, unless it is a keyword.
abbrev pub roots_of : Output → List Text
roots_of o = if is_keyword o.root then [] else o.root ∷ []

pub roots_in_value-path :
    (o : Output) → IsPlain (output o) → roots_in_value (o.root ++ dots o.props) ≡ roots_of o
unfolding roots_in_value roots_among
roots_in_value-path o h = named o.root h.0
  where
    named :
        (r : Text)
        → IsName r
        → roots_among (locs 0 [] (r ++ dots o.props)) ≡ (if is_keyword r then [] else r ∷ [])
    named [] k = absurd (ground arith)
    named (b ∷ w) k =
        ap roots_among (locs-name b w (dots o.props) [] k (dots-Ends o.props))
        ∙ roots_among-first (b ∷ w) o.props (locs 0 (onto (b ∷ w) []) (dots o.props))
            (roots_among-dots o.props (onto (b ∷ w) []) h.1)
