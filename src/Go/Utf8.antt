-- ===== src/Go/Utf8.antt =====
-- A Go string as its bytes, and the runes of its UTF-8 (package unicode/utf8).
use my_symphony.Base.{
  map, ap, All, ℕ, zero, suc, ◌+◌, ◌-◌, ◌*◌, ◌/◌, ◌%◌, ◌≡◌, ◌↔◌, refl, Bool, true, false, ◌&&◌,
  ◌||◌, ltb, leb, ◌==◌, if◌then◌else◌, List, [], ◌∷◌, arith, take,
}
use Prim.Native.Char.{code}
use Prim.Native.String.{String}

-- A Go string: its bytes.
abbrev pub Text : Type 0
Text = List ℕ

-- The text of a literal of ASCII characters.
abbrev pub ascii : String → Text
ascii String.[] = []
ascii (String.◌∷◌ c s) = code c ∷ ascii s

-- `s == t`.
unfoldable pub text_eq : Text → Text → Bool
text_eq [] [] = true
text_eq (a ∷ s) (b ∷ t) = a == b && text_eq s t
text_eq _ _ = false

pub text_eq_refl : (s : Text) → text_eq s s ≡ true
unfolding text_eq
text_eq_refl [] = refl
text_eq_refl (a ∷ s) = ground (arith, text_eq_refl s)

text_eq_sound : (s t : Text) → text_eq s t ≡ true → s ≡ t
unfolding text_eq
text_eq_sound [] [] h = refl
text_eq_sound [] (b ∷ t) h = ground arith
text_eq_sound (a ∷ s) [] h = ground arith
text_eq_sound (a ∷ s) (b ∷ t) h = ground (arith, text_eq_sound s t)

text_eq_complete : (s t : Text) → s ≡ t → text_eq s t ≡ true
text_eq_complete s t e = rw e (text_eq_refl t)

pub text_eq_iff : (s t : Text) → (text_eq s t ≡ true) ↔ (s ≡ t)
text_eq_iff s t = (text_eq_sound s t, text_eq_complete s t)

-- `s < t`, byte by byte.
unfoldable pub text_lt : Text → Text → Bool
text_lt [] [] = false
text_lt [] (b ∷ t) = true
text_lt (a ∷ s) [] = false
text_lt (a ∷ s) (b ∷ t) = ltb a b || (a == b && text_lt s t)

unfoldable pub is_blank : Text → Bool
is_blank [] = true
is_blank (a ∷ s) = false

-- U+FFFD, which stands for a byte that begins no rune.
abbrev pub rune_error : ℕ
rune_error = 0xfffd

is_cont : ℕ → Bool
is_cont b = leb 0x80 b && leb b 0xbf

-- The least and the greatest second byte after the first byte of a rune.
second_ok : ℕ → ℕ → Bool
unfolding is_cont
second_ok a b =
    if a == 0xe0
    then leb 0xa0 b && leb b 0xbf
    else if a == 0xed
    then leb 0x80 b && leb b 0x9f
    else if a == 0xf0
    then leb 0x90 b && leb b 0xbf
    else if a == 0xf4
    then leb 0x80 b && leb b 0x8f
    else is_cont b

-- A rune, and the number of bytes after its first.
invalid : ℕ × ℕ
invalid = (rune_error, 0)

decode_two : ℕ → List ℕ → ℕ × ℕ
unfolding is_cont invalid
decode_two a (b ∷ _) = if is_cont b then ((a - 0xc0) * 64 + (b - 0x80), 1) else invalid
decode_two a _ = invalid

decode_three : ℕ → List ℕ → ℕ × ℕ
unfolding is_cont second_ok invalid
decode_three a (b ∷ c ∷ _) =
    if second_ok a b && is_cont c
    then ((a - 0xe0) * 4096 + (b - 0x80) * 64 + (c - 0x80), 2)
    else invalid
decode_three a _ = invalid

decode_four : ℕ → List ℕ → ℕ × ℕ
unfolding is_cont second_ok invalid
decode_four a (b ∷ c ∷ d ∷ _) =
    if second_ok a b && is_cont c && is_cont d
    then ((a - 0xf0) * 262144 + (b - 0x80) * 4096 + (c - 0x80) * 64 + (d - 0x80), 3)
    else invalid
decode_four a _ = invalid

-- The rune that begins with byte `a`.
decode_rune : ℕ → List ℕ → ℕ × ℕ
unfolding decode_two decode_three decode_four invalid
decode_rune a rest =
    if ltb a 0x80
    then (a, 0)
    else if leb 0xc2 a && leb a 0xdf
    then decode_two a rest
    else if leb 0xe0 a && leb a 0xef
    then decode_three a rest
    else if leb 0xf0 a && leb a 0xf4
    then decode_four a rest
    else invalid

-- A rune with the bytes that it was read from.
pub record Piece : Type 0 where
  pub rune : ℕ
  pub bytes : List ℕ

-- The number of bytes still to be skipped comes first; they belong to the rune before.
pieces_from : ℕ → List ℕ → List Piece
pieces_from skip [] = []
pieces_from (suc skip) (b ∷ rest) = pieces_from skip rest
pieces_from zero (a ∷ rest) =
    let (rune, more) = decode_rune a rest in
    record { rune = rune; bytes = a ∷ take more rest } ∷ pieces_from more rest

-- `for _, r := range s`.
unfoldable pub pieces : Text → List Piece
unfolding pieces_from decode_rune
pieces s = pieces_from 0 s

-- The piece that a byte of ASCII is.
abbrev pub single : ℕ → Piece
single b = record { rune = b; bytes = b ∷ [] }

pub pieces-ascii : (s : Text) → All (λ b. ltb b 0x80 ≡ true) s → pieces s ≡ map single s
unfolding pieces pieces_from decode_rune
pieces-ascii [] h = refl
pieces-ascii (b ∷ s) h = rw h.0 (ap (λ ps. single b ∷ ps) (pieces-ascii s h.1))

-- The UTF-8 of a rune; what is no Unicode scalar value is written as U+FFFD.
unfoldable pub encode_rune : ℕ → List ℕ
encode_rune r =
    if ltb r 0x80
    then r ∷ []
    else if ltb r 0x800
    then (0xc0 + r / 64) ∷ (0x80 + r % 64) ∷ []
    else if ltb 0x10ffff r || (leb 0xd800 r && leb r 0xdfff)
    then 0xef ∷ 0xbf ∷ 0xbd ∷ []
    else if ltb r 0x10000
    then (0xe0 + r / 4096) ∷ (0x80 + r / 64 % 64) ∷ (0x80 + r % 64) ∷ []
    else (0xf0 + r / 262144) ∷ (0x80 + r / 4096 % 64) ∷ (0x80 + r / 64 % 64) ∷ (0x80 + r % 64) ∷ []

-- `<` on texts is a strict total order.
pub text_lt_asym : (s t : Text) → text_lt s t ≡ true → text_lt t s ≡ false
unfolding text_lt
text_lt_asym [] [] h = refl
text_lt_asym [] (b ∷ t) h = refl
text_lt_asym (a ∷ s) [] h = cc
text_lt_asym (a ∷ s) (b ∷ t) h = ground (arith, text_lt_asym s t)

text_lt_nil : (s : Text) → text_lt s [] ≡ false
unfolding text_lt
text_lt_nil [] = refl
text_lt_nil (a ∷ s) = refl

pub text_lt_neg_trans :
    (s t u : Text) → text_lt s t ≡ false → text_lt t u ≡ false → text_lt s u ≡ false
unfolding text_lt
text_lt_neg_trans s t [] h k = text_lt_nil s
text_lt_neg_trans [] [] (c ∷ u) h k = ground arith
text_lt_neg_trans [] (b ∷ t) (c ∷ u) h k = ground arith
text_lt_neg_trans (a ∷ s) [] (c ∷ u) h k = ground arith
text_lt_neg_trans (a ∷ s) (b ∷ t) (c ∷ u) h k = ground (arith, text_lt_neg_trans s t u)
