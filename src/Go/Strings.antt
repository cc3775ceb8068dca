-- ===== src/Go/Strings.antt =====
-- The functions of package strings that the program calls.
use my_symphony.Base.{
  some, none, Option, length, drop, ℕ, ◌+◌, ◌≡◌, refl, Bool, true, false, ◌&&◌, ◌||◌, ltb, leb,
  ◌==◌, if◌then◌else◌, List, [], ◌∷◌, ◌++◌, map,
}
use mathlib.Core.List.{reverse}
use my_symphony.Go.Utf8.{is_blank, Text, Piece, pieces, encode_rune, ascii, text_eq}
use my_symphony.Go.CaseRange.{map_case}
use my_symphony.Go.LowerTable.{lower_ranges}
use my_symphony.Go.FoldTable.{fold_ranges}

-- unicode.IsSpace.
unfoldable pub is_space : ℕ → Bool
is_space r =
    (leb 9 r && leb r 13)
    || r == 32
    || r == 0x85
    || r == 0xa0
    || r == 0x1680
    || (leb 0x2000 r && leb r 0x200a)
    || r == 0x2028
    || r == 0x2029
    || r == 0x202f
    || r == 0x205f
    || r == 0x3000

-- strings.TrimLeftFunc on the runes of a text.
unfoldable pub trim_pieces : List Piece → List Piece
trim_pieces [] = []
trim_pieces (p ∷ ps) = if is_space p.rune then trim_pieces ps else p ∷ ps

unfoldable pub bytes_of : List Piece → Text
bytes_of [] = []
bytes_of (p ∷ ps) = p.bytes ++ bytes_of ps

-- strings.TrimSpace.
unfoldable pub trim_space : Text → Text
unfolding is_space trim_pieces bytes_of pieces
trim_space s = bytes_of (reverse (trim_pieces (reverse (trim_pieces (pieces s)))))

-- unicode.ToLower.
unfoldable pub lower_rune : ℕ → ℕ
unfolding map_case
lower_rune r =
    if ltb r 0x80 then if leb b'A' r && leb r b'Z' then r + 32 else r else map_case lower_ranges r

unfoldable pub encode_all : List ℕ → Text
unfolding encode_rune
encode_all [] = []
encode_all (r ∷ rs) = encode_rune r ++ encode_all rs

-- strings.ToLower.
unfoldable pub to_lower : Text → Text
unfolding lower_rune encode_all pieces
to_lower s = encode_all (map (λ p. lower_rune p.rune) (pieces s))

-- strings.EqualFold.
unfoldable pub fold_rune : ℕ → ℕ
unfolding map_case
fold_rune r = map_case fold_ranges r

unfoldable pub equal_fold : Text → Text → Bool
unfolding fold_rune text_eq pieces
equal_fold s t =
    text_eq (map (λ p. fold_rune p.rune) (pieces s)) (map (λ p. fold_rune p.rune) (pieces t))

-- strings.HasPrefix.
unfoldable pub has_prefix : Text → Text → Bool
has_prefix s [] = true
has_prefix [] (b ∷ t) = false
has_prefix (a ∷ s) (b ∷ t) = a == b && has_prefix s t

-- strings.TrimPrefix.
unfoldable pub trim_prefix : Text → Text → Text
unfolding has_prefix
trim_prefix s prefix = if has_prefix s prefix then drop (length prefix) s else s

-- The words between the runes of white space, as a word begun and the words after it.
unfoldable pub field_step : Piece → List Text → List Text
field_step p [] = []
field_step p (w ∷ ws) = if is_space p.rune then [] ∷ w ∷ ws else (p.bytes ++ w) ∷ ws

unfoldable pub drop_empty : List Text → List Text
drop_empty [] = []
drop_empty (w ∷ ws) = if is_blank w then drop_empty ws else w ∷ drop_empty ws

unfoldable pub split_fields : List Piece → List Text
unfolding field_step is_space
split_fields [] = [] ∷ []
split_fields (p ∷ ps) = field_step p (split_fields ps)

-- strings.Fields.
unfoldable pub string_fields : Text → List Text
unfolding split_fields drop_empty pieces is_space is_blank
string_fields s = drop_empty (split_fields (pieces s))

-- strings.Split at one byte.
unfoldable pub begin_with : ℕ → List Text → List Text
begin_with b [] = []
begin_with b (w ∷ ws) = (b ∷ w) ∷ ws

unfoldable pub split : ℕ → Text → List Text
unfolding begin_with
split at [] = [] ∷ []
split at (b ∷ s) = let rest = split at s in if b == at then [] ∷ rest else begin_with b rest

-- What follows the first byte of a value: `s[strings.Index(s, b)+1:]`.
unfoldable pub after_byte : ℕ → Text → Option Text
after_byte at [] = none
after_byte at (b ∷ s) = if b == at then some s else after_byte at s

fields_ascii :
    string_fields (ascii " if  a ==\tb") ≡ ascii "if" ∷ ascii "a" ∷ ascii "==" ∷ ascii "b" ∷ []
unfolding string_fields
fields_ascii = refl

split_bars : split b'|' (ascii "a|b||") ≡ ascii "a" ∷ ascii "b" ∷ [] ∷ [] ∷ []
unfolding split
split_bars = refl

trim_lower_ascii : to_lower (trim_space (ascii " In Progress\n")) ≡ ascii "in progress"
unfolding to_lower trim_space
trim_lower_ascii = refl

-- "  ÉÀ Ω " is trimmed to "éà ω".
trim_lower_wide :
    to_lower (trim_space (0xe2 ∷ 0x80 ∷ 0x83 ∷ 0xc3 ∷ 0x89 ∷ 32 ∷ 0xce ∷ 0xa9 ∷ 32 ∷ []))
    ≡ 0xc3 ∷ 0xa9 ∷ 32 ∷ 0xcf ∷ 0x89 ∷ []
unfolding to_lower trim_space
trim_lower_wide = refl

-- The Kelvin sign is a "k"; a broken byte is no rune.
folds : equal_fold (0xe2 ∷ 0x84 ∷ 0xaa ∷ []) (ascii "K") ≡ true
unfolding equal_fold
folds = refl

lower_broken : to_lower (b'A' ∷ 0xff ∷ []) ≡ b'a' ∷ 0xef ∷ 0xbf ∷ 0xbd ∷ []
unfolding to_lower
lower_broken = refl
