-- ===== src/Prompt/Scan.antt =====
-- The regular expressions of internal/prompt/strict.go, each as a function that matches at the start
-- of a text and returns its group and the rest. No part of them ever has a choice to take back.
use my_symphony.Go.Utf8.{Text, ascii}
use my_symphony.Base.Options.{◌>>=◌}
use my_symphony.Base.{
  ◌∷◌, ◌||◌, ◌==◌, ◌-◌, ◌&&◌, ℕ, zero, true, suc, some, not, none, length, leb, if◌then◌else◌, [],
  Option, List, Bool,
}
use my_symphony.Go.Strconv.{is_digit}

-- `\s`.
unfoldable pub is_re_space : ℕ → Bool
is_re_space b = b == 9 || b == 10 || b == 12 || b == 13 || b == 32

-- `[A-Za-z_]`.
unfoldable pub is_ident_start : ℕ → Bool
is_ident_start b = (leb b'A' b && leb b b'Z') || (leb b'a' b && leb b b'z') || b == b'_'

-- `[A-Za-z0-9_]`.
unfoldable pub is_ident_byte : ℕ → Bool
unfolding is_ident_start is_digit
is_ident_byte b = is_ident_start b || is_digit b

-- `\s*`.
unfoldable pub skip_spaces : Text → Text
unfolding is_re_space
skip_spaces [] = []
skip_spaces (b ∷ s) = if is_re_space b then skip_spaces s else b ∷ s

-- `\s+`.
unfoldable pub spaces : Text → Option Text
unfolding is_re_space skip_spaces
spaces [] = none
spaces (b ∷ s) = if is_re_space b then some (skip_spaces s) else none

-- A literal.
unfoldable pub literal : Text → Text → Option Text
literal [] s = some s
literal (a ∷ w) [] = none
literal (a ∷ w) (b ∷ s) = if a == b then literal w s else none

-- `-?`.
unfoldable pub skip_dash : Text → Text
skip_dash [] = []
skip_dash (b ∷ s) = if b == b'-' then s else b ∷ s

-- `[A-Za-z0-9_]*`.
unfoldable pub ident_rest : Text → Text × Text
unfolding is_ident_byte
ident_rest [] = ([], [])
ident_rest (b ∷ s) =
    let (w, rest) = ident_rest s in if is_ident_byte b then (b ∷ w, rest) else ([], b ∷ s)

-- `[A-Za-z_][A-Za-z0-9_]*`.
unfoldable pub ident : Text → Option (Text × Text)
unfolding is_ident_start ident_rest
ident [] = none
ident (b ∷ s) =
    let (w, rest) = ident_rest s in if is_ident_start b then some (b ∷ w, rest) else none

-- `\b` after a letter.
unfoldable pub word_ends : Text → Bool
unfolding is_ident_byte
word_ends [] = true
word_ends (b ∷ s) = not (is_ident_byte b)

-- `\{%-?\s*WORD\s+([A-Za-z_][A-Za-z0-9_]*)`.
unfoldable pub tag_head : Text → Text → Option (Text × Text)
unfolding literal skip_dash skip_spaces spaces ident
tag_head word s = do
  opened ← literal (ascii "{%") s
  named ← literal word (skip_spaces (skip_dash opened))
  spaced ← spaces named
  ident spaced

-- forVarRe and tablerowVarRe.
unfoldable pub loop_var : Text → Text → Option (Text × Text)
unfolding tag_head spaces literal word_ends
loop_var word s = do
  (name, after) ← tag_head word s
  spaced ← spaces after
  rest ← literal (ascii "in") spaced
  if word_ends rest then some (name, rest) else none

-- assignVarRe.
unfoldable pub assign_var : Text → Option (Text × Text)
unfolding tag_head skip_spaces literal
assign_var s = do
  (name, after) ← tag_head (ascii "assign") s
  rest ← literal (ascii "=") (skip_spaces after)
  some (name, rest)

-- captureVarRe.
unfoldable pub capture_var : Text → Option (Text × Text)
unfolding tag_head skip_spaces skip_dash literal
capture_var s = do
  (name, after) ← tag_head (ascii "capture") s
  rest ← literal (ascii "%}") (skip_dash (skip_spaces after))
  some (name, rest)

-- `-?CLOSE`.
unfoldable pub closing : Text → Text → Option Text
unfolding literal skip_dash
closing close s = literal close (skip_dash s)

-- `(.*?)-?CLOSE`: the dot matches no line feed.
unfoldable pub until : Text → Text → Option (Text × Text)
unfolding closing
until close [] = elim (closing close []) [ none ↦ none | some rest ↦ some ([], rest) ]
until close (b ∷ s) = elim (closing close (b ∷ s)) [
  | some rest ↦ some ([], rest)
  | none ↦
      if b == 10
      then none
      else elim (until close s) [ none ↦ none | some (w, rest) ↦ some (b ∷ w, rest) ]
]

-- outputRe and tagRe: `OPEN-?(.*?)-?CLOSE`. Without the first dash nothing more would match.
unfoldable pub block : Text → Text → Text → Option (Text × Text)
unfolding literal skip_dash until
block opening close s = do opened ← literal opening s; until close (skip_dash opened)

-- FindAllStringSubmatch: the groups of the leftmost matches that do not overlap. The number counts
-- the bytes of a match that are still to be passed over.
unfoldable pub find_from : (Text → Option (Text × Text)) → ℕ → Text → List Text
find_from match_at skip [] = []
find_from match_at (suc skip) (b ∷ s) = find_from match_at skip s
find_from match_at zero (b ∷ s) = elim (match_at (b ∷ s)) [
  | none ↦ find_from match_at zero s
  | some (group, rest) ↦ group ∷ find_from match_at (length s - length rest) s
]

unfoldable pub find_all : (Text → Option (Text × Text)) → Text → List Text
unfolding find_from
find_all match_at s = find_from match_at 0 s

-- `\bin\b`, where the Boolean says whether the byte before is one of a word: what follows the match.
unfoldable pub find_in : Bool → Text → Option Text
unfolding literal word_ends is_ident_byte
find_in after_word [] = none
find_in after_word (b ∷ s) = elim (literal (ascii "in") (b ∷ s)) [
  | none ↦ find_in (is_ident_byte b) s
  | some rest ↦ if not after_word && word_ends rest then some rest else find_in (is_ident_byte b) s
]
