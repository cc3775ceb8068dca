-- ===== src/Prompt/Document.antt =====
-- Templates of plain text and of outputs of variables, and what the scans of strict.go find in them.
use my_symphony.Go.Utf8.{Text, ascii}
use my_symphony.Go.Strconv.{is_digit}
use my_symphony.Base.{
  append_assoc, ap, ◌∙◌, ◌-◌, map, length-append, ◌≡◌, ◌∷◌, ◌==◌, ◌++◌, ◌&&◌, ℕ, true, some, refl,
  not, none, length, false, arith, [], Option, List, Bool, All-append, All,
}
use my_symphony.Prompt.Scan.{
  block, literal, closing, until, skip_dash, is_ident_start, is_ident_byte, find_from,
}
use my_symphony.Config.Coerce.{whole}

pub record Output : Type 0 where
  pub root : Text
  pub props : List Text

pub data Segment : Type 0 where
  plain : Text → Segment
  output : Output → Segment

-- `.p.q`.
abbrev pub dots : List Text → Text
dots [] = []
dots (p ∷ ps) = b'.' ∷ p ++ dots ps

-- What stands between the braces: ` root.p.q `.
abbrev pub inner : Output → Text
inner o = 32 ∷ (o.root ++ dots o.props) ++ (32 ∷ [])

abbrev pub template_of : List Segment → Text
template_of [] = []
template_of (plain t ∷ doc) = t ++ template_of doc
template_of (output o ∷ doc) = 123 ∷ 123 ∷ inner o ++ 125 ∷ 125 ∷ template_of doc

abbrev pub outputs : List Segment → List Output
outputs [] = []
outputs (plain t ∷ doc) = outputs doc
outputs (output o ∷ doc) = o ∷ outputs doc

-- `[A-Za-z_][A-Za-z0-9_]*`.
abbrev pub IsName : Text → Type 0
IsName [] = false ≡ true
IsName (b ∷ s) = (is_ident_start b ≡ true) × All (λ c. is_ident_byte c ≡ true) s

abbrev pub IsPlain : Segment → Type 0
IsPlain (plain t) = All (λ b. (b == 123) ≡ false) t
IsPlain (output o) = IsName o.root × All IsName o.props

-- A byte of an output: no brace, dash, line feed, quote or bar.
unfoldable pub is_inner : ℕ → Bool
is_inner b =
    not (b == 123)
    && not (b == 125)
    && not (b == b'-')
    && not (b == 10)
    && not (b == b'\'')
    && not (b == b'"')
    && not (b == b'|')

pub IsName-inner : (s : Text) → IsName s → All (λ b. is_inner b ≡ true) s
unfolding is_inner is_ident_start is_ident_byte is_digit
IsName-inner [] h = tt
IsName-inner (b ∷ s) h = (ground (arith, h.0), rest s h.1)
  where
    rest : (w : Text) → All (λ c. is_ident_byte c ≡ true) w → All (λ c. is_inner c ≡ true) w
    rest [] k = tt
    rest (c ∷ w) k = (ground (arith, k.0), rest w k.1)

pub dots-inner : (ps : List Text) → All IsName ps → All (λ b. is_inner b ≡ true) (dots ps)
unfolding is_inner
dots-inner [] h = tt
dots-inner (p ∷ ps) h =
    (refl, All-append (λ b. is_inner b ≡ true) p (dots ps) (IsName-inner p h.0) (dots-inner ps h.1))

pub inner-inner : (o : Output) → IsPlain (output o) → All (λ b. is_inner b ≡ true) (inner o)
unfolding is_inner
inner-inner o h = (
  refl,
  All-append (λ b. is_inner b ≡ true) (o.root ++ dots o.props) (32 ∷ [])
      (All-append (λ b. is_inner b ≡ true) o.root (dots o.props) (IsName-inner o.root h.0)
        (dots-inner o.props h.1))
      (refl, tt),
)

-- A scan passes over the bytes of a match.
find_from-skip :
    (m : Text → Option (Text × Text)) (xs ys : Text)
    → find_from m (length xs) (xs ++ ys) ≡ find_from m 0 ys
unfolding find_from
find_from-skip m [] ys = refl
find_from-skip m (x ∷ xs) ys = find_from-skip m xs ys

-- A scan whose matches all begin with an opening brace passes over other bytes.
abbrev pub NeedsBrace : (Text → Option (Text × Text)) → Type 0
NeedsBrace m = (b : ℕ) (s : Text) → (b == 123) ≡ false → m (b ∷ s) ≡ none

find_from-plain :
    (m : Text → Option (Text × Text)) (t s : Text)
    → NeedsBrace m
    → All (λ b. (b == 123) ≡ false) t
    → find_from m 0 (t ++ s) ≡ find_from m 0 s
unfolding find_from
find_from-plain m [] s n h = refl
find_from-plain m (b ∷ t) s n h = rw (n b (t ++ s) h.0) (find_from-plain m t s n h.1)

closing-inner : (b : ℕ) (s : Text) → is_inner b ≡ true → closing (ascii "}}") (b ∷ s) ≡ none
unfolding closing skip_dash literal is_inner
closing-inner b s h = ground (arith, h)

closes : (rest : Text) → until (ascii "}}") (125 ∷ 125 ∷ rest) ≡ some ([], rest)
unfolding until closing literal skip_dash
closes rest = refl

until-inner :
    (w rest : Text)
    → All (λ b. is_inner b ≡ true) w
    → until (ascii "}}") (w ++ 125 ∷ 125 ∷ rest) ≡ some (w, rest)
unfolding until is_inner
until-inner [] rest h = closes rest
until-inner (b ∷ w) rest h =
    let feed : (b == 10) ≡ false = ground (arith, h.0) in
    let open_still = closing-inner b (w ++ 125 ∷ 125 ∷ rest) h.0 in
    rw (open_still, until, feed, until-inner w rest h.1) refl

-- A scan goes on after the match that it has found.
find_from-after :
    (m : Text → Option (Text × Text)) (xs rest whole : Text)
    → whole ≡ xs ++ rest
    → find_from m (length whole - length rest) whole ≡ find_from m 0 rest
find_from-after m xs rest whole e =
    let size : length (xs ++ rest) - length rest ≡ length xs =
      omega (arith, length-append xs rest) in
    rw (e, size) (find_from-skip m xs rest)

find_from-match :
    (m : Text → Option (Text × Text)) (b : ℕ) (s group rest : Text)
    → m (b ∷ s) ≡ some (group, rest)
    → find_from m 0 (b ∷ s) ≡ group ∷ find_from m (length s - length rest) s
unfolding find_from
find_from-match m b s group rest e = rw (e, find_from) refl

abbrev output_block : Text → Option (Text × Text)
output_block = block (ascii "{{") (ascii "}}")

output_block-NeedsBrace : NeedsBrace output_block
unfolding block literal
output_block-NeedsBrace b s h = ground (arith, h)

output_block-inner :
    (o : Output) (s : Text)
    → IsPlain (output o)
    → output_block (123 ∷ 123 ∷ inner o ++ 125 ∷ 125 ∷ s) ≡ some (inner o, s)
unfolding block literal skip_dash
output_block-inner o s h = until-inner (inner o) s (inner-inner o h)

-- The scan for outputs finds what stands between the braces of each.
pub find_from-outputs :
    (doc : List Segment)
    → All IsPlain doc
    → find_from output_block 0 (template_of doc) ≡ map inner (outputs doc)
unfolding find_from
find_from-outputs [] k = refl
find_from-outputs (plain t ∷ d) k =
    find_from-plain output_block t (template_of d) output_block-NeedsBrace k.0
    ∙ find_from-outputs d k.1
find_from-outputs (output o ∷ d) k =
    let whole = 123 ∷ inner o ++ 125 ∷ 125 ∷ template_of d in
    let parts : whole ≡ (123 ∷ inner o ++ 125 ∷ 125 ∷ []) ++ template_of d =
      ap (λ s. 123 ∷ s) (append_assoc (inner o) (125 ∷ 125 ∷ []) (template_of d)) in
    find_from-match output_block 123 whole (inner o) (template_of d)
      (output_block-inner o (template_of d) k.0)
    ∙ ap (λ ws. inner o ∷ ws)
        (find_from-after output_block (123 ∷ inner o ++ 125 ∷ 125 ∷ []) (template_of d) whole parts
          ∙ find_from-outputs d k.1)

-- A scan for tags, whose matches all begin with `{%`.
abbrev pub NeedsTag : (Text → Option (Text × Text)) → Type 0
NeedsTag m = (s : Text) → literal (ascii "{%") s ≡ none → m s ≡ none

find_from-step :
    (m : Text → Option (Text × Text)) (b : ℕ) (s : Text)
    → m (b ∷ s) ≡ none
    → find_from m 0 (b ∷ s) ≡ find_from m 0 s
unfolding find_from
find_from-step m b s e = rw (e, find_from) refl

NeedsTag-NeedsBrace : (m : Text → Option (Text × Text)) → NeedsTag m → NeedsBrace m
unfolding literal
NeedsTag-NeedsBrace m n b s h = n (b ∷ s) (ground (arith, h))

inner_brace : (w : Text) → All (λ b. is_inner b ≡ true) w → All (λ b. (b == 123) ≡ false) w
unfolding is_inner
inner_brace [] h = tt
inner_brace (b ∷ w) h = (ground (arith, h.0), inner_brace w h.1)

-- A template of plain text and outputs has no tag.
pub find_from-tags :
    (m : Text → Option (Text × Text)) (doc : List Segment)
    → NeedsTag m
    → All IsPlain doc
    → find_from m 0 (template_of doc) ≡ []
unfolding find_from literal
find_from-tags m [] n h = refl
find_from-tags m (plain t ∷ d) n h =
    find_from-plain m t (template_of d) (NeedsTag-NeedsBrace m n) h.0 ∙ find_from-tags m d n h.1
find_from-tags m (output o ∷ d) n h =
    let brace = NeedsTag-NeedsBrace m n in
    let after = inner o ++ 125 ∷ 125 ∷ template_of d in
    find_from-step m 123 (123 ∷ after) (n (123 ∷ 123 ∷ after) refl)
    ∙ find_from-step m 123 after (n (123 ∷ after) refl)
    ∙ find_from-plain m (inner o) (125 ∷ 125 ∷ template_of d) brace
        (inner_brace (inner o) (inner-inner o h.0))
    ∙ find_from-plain m (125 ∷ 125 ∷ []) (template_of d) brace (refl, (refl, tt))
    ∙ find_from-tags m d n h.1
