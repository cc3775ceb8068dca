-- ===== src/Prompt/Roots.antt =====
-- The variables of an expression, as internal/prompt/strict.go finds them.
use my_symphony.Prompt.Scan.{is_ident_start, ident_rest, find_in}
use my_symphony.Go.Utf8.{text_eq, is_blank, Text, ascii}
use my_symphony.Base.{
  ◌∷◌, ◌||◌, ◌==◌, ◌++◌, ◌&&◌, ℕ, zero, true, suc, some, not, none, length, if◌then◌else◌, false,
  [], Option, List, Bool,
}
use my_symphony.Go.Strings.{split, trim_space, trim_prefix, string_fields, after_byte}

-- liquidKeywords.
abbrev pub liquid_keywords : List Text
liquid_keywords =
    ascii "if"
    ∷ ascii "elsif"
    ∷ ascii "else"
    ∷ ascii "endif"
    ∷ ascii "unless"
    ∷ ascii "endunless"
    ∷ ascii "for"
    ∷ ascii "endfor"
    ∷ ascii "in"
    ∷ ascii "reversed"
    ∷ ascii "limit"
    ∷ ascii "offset"
    ∷ ascii "range"
    ∷ ascii "assign"
    ∷ ascii "capture"
    ∷ ascii "endcapture"
    ∷ ascii "case"
    ∷ ascii "when"
    ∷ ascii "endcase"
    ∷ ascii "tablerow"
    ∷ ascii "endtablerow"
    ∷ ascii "cols"
    ∷ ascii "cycle"
    ∷ ascii "increment"
    ∷ ascii "decrement"
    ∷ ascii "break"
    ∷ ascii "continue"
    ∷ ascii "comment"
    ∷ ascii "endcomment"
    ∷ ascii "raw"
    ∷ ascii "endraw"
    ∷ ascii "include"
    ∷ ascii "render"
    ∷ ascii "with"
    ∷ ascii "as"
    ∷ ascii "and"
    ∷ ascii "or"
    ∷ ascii "not"
    ∷ ascii "contains"
    ∷ ascii "true"
    ∷ ascii "false"
    ∷ ascii "nil"
    ∷ ascii "null"
    ∷ ascii "empty"
    ∷ ascii "blank"
    ∷ ascii "by"
    ∷ []

-- A set of words.
unfoldable pub has_word : List Text → Text → Bool
unfolding text_eq
has_word [] w = false
has_word (x ∷ xs) w = text_eq x w || has_word xs w

unfoldable pub is_keyword : Text → Bool
unfolding has_word
is_keyword w = has_word liquid_keywords w

unfoldable pub is_quote : ℕ → Bool
is_quote c = c == b'\'' || c == b'"'

-- The loop of stripStringLiterals, with the quote that ends the literal it is in.
unfoldable pub strip_from : Option ℕ → Text → Text
unfolding is_quote
strip_from quote [] = []
strip_from (some q) (c ∷ s) = 32 ∷ strip_from (if c == q then none else some q) s
strip_from none (c ∷ s) =
    let rest = strip_from (if is_quote c then some c else none) s in
    (if is_quote c then 32 else c) ∷ rest

-- stripStringLiterals.
unfoldable pub strip_string_literals : Text → Text
unfolding strip_from
strip_string_literals s = strip_from none s

-- firstNonSpace; 0 where there is none.
unfoldable pub first_non_space : Text → ℕ
first_non_space [] = 0
first_non_space (b ∷ s) = if not (b == 32) && not (b == 9) then b else first_non_space s

-- lastNonSpace of the text that is given from its end.
unfoldable pub last_non_space : Text → ℕ
last_non_space [] = 0
last_non_space (b ∷ s) = if not (b == 32) && not (b == 9) then b else last_non_space s

-- One match of identRe with the text before it, from its end, and the text after it.
pub record Loc : Type 0 where
  pub before : Text
  pub name : Text
  pub after : Text

-- identRe.FindAllStringIndex; the number counts the bytes of a match still to be passed over.
unfoldable pub locs : ℕ → Text → Text → List Loc
unfolding is_ident_start ident_rest
locs skip before [] = []
locs (suc skip) before (b ∷ s) = locs skip (b ∷ before) s
locs zero before (b ∷ s) = elim (is_ident_start b) [
  | false ↦ locs 0 (b ∷ before) s
  | true ↦
      let (w, after) = ident_rest s in
      record { before = before; name = b ∷ w; after = after } ∷ locs (length w) (b ∷ before) s
]

-- The body of the loop of rootsInValue: whether a match is a root.
unfoldable pub is_root : Loc → Bool
unfolding last_non_space first_non_space
is_root loc =
    if is_keyword loc.name
    then false
    else if not (is_blank loc.before) && last_non_space loc.before == b'.'
    then false
    else if first_non_space loc.after == b':'
    then false
    else true

unfoldable pub roots_among : List Loc → List Text
unfolding is_root
roots_among [] = []
roots_among (loc ∷ rest) =
    let later = roots_among rest in if is_root loc then loc.name ∷ later else later

-- rootsInValue.
unfoldable pub roots_in_value : Text → List Text
unfolding locs roots_among
roots_in_value fragment = roots_among (locs 0 [] fragment)

-- The loop over the filters.
unfoldable pub roots_in_filters : List Text → List Text
unfolding roots_in_value after_byte trim_space
roots_in_filters [] = []
roots_in_filters (seg ∷ rest) = elim (after_byte b':' (trim_space seg)) [
  | none ↦ roots_in_filters rest
  | some args ↦ roots_in_value args ++ roots_in_filters rest
]

-- The value of a pipeline, and its filters.
unfoldable pub roots_in_pipeline : List Text → List Text
unfolding roots_in_value roots_in_filters
roots_in_pipeline [] = []
roots_in_pipeline (value ∷ filters) = roots_in_value value ++ roots_in_filters filters

unfoldable pub or_all : Option Text → Text → Text
or_all none s = s
or_all (some t) s = t

-- What is left of an expression without its tag's keyword and its target; `none` for a capture.
unfoldable pub expression_of : Text → Option Text
unfolding after_byte find_in or_all
expression_of trimmed = elim (string_fields trimmed) [
  | [] ↦ some trimmed
  | word ∷ _ ↦
      if not (is_keyword word)
      then some trimmed
      else let body = trim_space (trim_prefix trimmed word) in
        if text_eq word (ascii "assign")
        then some (or_all (after_byte b'=' body) body)
        else if text_eq word (ascii "for") || text_eq word (ascii "tablerow")
        then some (or_all (find_in false body) body)
        else if text_eq word (ascii "capture")
        then none
        else some body
]

-- variableRoots.
unfoldable pub variable_roots : Text → List Text
unfolding expression_of split
variable_roots expr = elim (expression_of (trim_space (strip_string_literals expr))) [
  | none ↦ []
  | some value ↦ roots_in_pipeline (split b'|' value)
]
