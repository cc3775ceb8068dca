-- ===== src/Go/Ascii.antt =====
-- The functions of package strings on visible ASCII.
use my_symphony.Go.Utf8.{pieces, pieces-ascii, is_blank, single, Piece, Text}
use my_symphony.Go.Strings.{
  split_fields, field_step, drop_empty, trim_space, trim_pieces, string_fields, is_space, bytes_of,
}
use my_symphony.Base.{
  ◌∙◌, ap, ◌≡◌, ◌∷◌, ◌++◌, ◌&&◌, ℕ, true, refl, map, ltb, leb, false, arith, [], List, Bool,
  All-append, All,
}
use mathlib.Core.List.{reverse-cons, reverse-append, reverse-reverse, reverse}

-- A visible byte of ASCII.
unfoldable pub is_visible : ℕ → Bool
is_visible b = leb 33 b && leb b 126

abbrev pub IsVisible : Text → Type 0
IsVisible s = All (λ b. is_visible b ≡ true) s

visible_ascii : (s : Text) → IsVisible s → All (λ b. ltb b 0x80 ≡ true) s
unfolding is_visible
visible_ascii [] h = tt
visible_ascii (b ∷ s) h = (ground (arith, h.0), visible_ascii s h.1)

abbrev NoSpace : List Piece → Type 0
NoSpace ps = All (λ p. is_space p.rune ≡ false) ps

visible-NoSpace : (s : Text) → IsVisible s → NoSpace (map single s)
unfolding is_visible is_space
visible-NoSpace [] h = tt
visible-NoSpace (b ∷ s) h = (ground (arith, h.0), visible-NoSpace s h.1)

trim_pieces-NoSpace : (ps : List Piece) → NoSpace ps → trim_pieces ps ≡ ps
unfolding trim_pieces
trim_pieces-NoSpace [] h = refl
trim_pieces-NoSpace (p ∷ ps) h = rw h.0 refl

All-reverse {ℓ κ} : {A : Type ℓ} (P : A → Type κ) (xs : List A) → All P xs → All P (reverse xs)
All-reverse P [] h = tt
All-reverse P (x ∷ xs) h =
    rw (reverse-cons x xs) (All-append P (reverse xs) (x ∷ []) (All-reverse P xs h.1) (h.0, tt))

bytes_of-single : (s : Text) → bytes_of (map single s) ≡ s
unfolding bytes_of
bytes_of-single [] = refl
bytes_of-single (b ∷ s) = rw (bytes_of-single s) refl

map-append_single : (s t : Text) → map single (s ++ t) ≡ map single s ++ map single t
map-append_single [] t = refl
map-append_single (b ∷ s) t = rw (map-append_single s t) refl

-- Trimming from both ends the pieces of a word with a space on each side.
trim_both :
    (p : Piece) (ps : List Piece) (sp : Piece)
    → is_space sp.rune ≡ true
    → NoSpace (p ∷ ps)
    → reverse (trim_pieces (reverse (trim_pieces (sp ∷ (p ∷ ps) ++ (sp ∷ []))))) ≡ p ∷ ps
unfolding trim_pieces
trim_both p ps sp blank h =
    rw (blank, h.0)
      (rw (reverse-append (p ∷ ps) (sp ∷ [])) (
        rw blank (
          rw
            (trim_pieces-NoSpace (reverse (p ∷ ps))
              (All-reverse (λ q. is_space q.rune ≡ false) (p ∷ ps) h))
            (reverse-reverse (p ∷ ps)))))

-- A space on both sides is trimmed off.
pub trim_space-padded :
    (b : ℕ) (s : Text) → IsVisible (b ∷ s) → trim_space (32 ∷ b ∷ s ++ (32 ∷ [])) ≡ b ∷ s
unfolding trim_space is_space
trim_space-padded b s h =
    let wide : pieces (32 ∷ b ∷ s ++ (32 ∷ []))
        ≡ single 32 ∷ map single (b ∷ s) ++ (single 32 ∷ []) =
      pieces-ascii (32 ∷ b ∷ s ++ (32 ∷ [])) (
        refl,
        All-append (λ c. ltb c 0x80 ≡ true) (b ∷ s) (32 ∷ []) (visible_ascii (b ∷ s) h) (refl, tt),
      )
      ∙ ap (λ ps. single 32 ∷ single b ∷ ps) (map-append_single s (32 ∷ [])) in
    ap (λ ps. bytes_of (reverse (trim_pieces (reverse (trim_pieces ps))))) wide
    ∙ ap bytes_of (trim_both (single b) (map single s) (single 32) refl (visible-NoSpace (b ∷ s) h))
    ∙ bytes_of-single (b ∷ s)

split_fields-visible : (s : Text) → IsVisible s → split_fields (map single s) ≡ s ∷ []
unfolding split_fields field_step
split_fields-visible [] h = refl
split_fields-visible (b ∷ s) h = rw (split_fields-visible s h.1, (visible-NoSpace (b ∷ s) h).0) refl

-- A visible word is one field.
pub string_fields-visible :
    (b : ℕ) (s : Text) → IsVisible (b ∷ s) → string_fields (b ∷ s) ≡ (b ∷ s) ∷ []
unfolding string_fields drop_empty is_blank
string_fields-visible b s h =
    ap (λ ps. drop_empty (split_fields ps)) (pieces-ascii (b ∷ s) (visible_ascii (b ∷ s) h))
    ∙ ap drop_empty (split_fields-visible (b ∷ s) h)
