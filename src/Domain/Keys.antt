-- ===== src/Domain/Keys.antt =====
-- WorkspaceKey of internal/domain/domain.go: the directory name of an issue.
use my_symphony.Base.{
  Bool-cases, ◌⊎◌, ◌≤◌, inr, inl, false, ℕ, ◌≡◌, refl, Bool, true, ◌&&◌, ◌||◌, leb, ◌==◌,
  if◌then◌else◌, List, [], ◌∷◌, arith, All,
}
use my_symphony.Go.Utf8.{Text, Piece, pieces, ascii}

-- A byte of [A-Za-z0-9._-].
unfoldable pub is_key_rune : ℕ → Bool
is_key_rune r =
    (leb b'A' r && leb r b'Z')
    || (leb b'a' r && leb r b'z')
    || (leb b'0' r && leb r b'9')
    || r == b'.'
    || r == b'_'
    || r == b'-'

unfoldable pub key_of_pieces : List Piece → Text
unfolding is_key_rune
key_of_pieces [] = []
key_of_pieces (p ∷ ps) = (if is_key_rune p.rune then p.rune else b'_') ∷ key_of_pieces ps

-- WorkspaceKey: each rune that does not match is replaced by one "_".
unfoldable pub workspace_key : Text → Text
unfolding key_of_pieces pieces
workspace_key identifier = key_of_pieces (pieces identifier)

-- The characters that a key may have: "A" to "Z", "a" to "z", "0" to "9", ".", "_" and "-".
abbrev pub IsKeyRune : ℕ → Type 0
IsKeyRune r =
    ((65 ≤ r) × (r ≤ 90))
    ⊎ (((97 ≤ r) × (r ≤ 122)) ⊎ (((48 ≤ r) × (r ≤ 57)) ⊎ ((r ≡ 46) ⊎ ((r ≡ 95) ⊎ (r ≡ 45)))))

-- A key against the runes of its identifier, one for one.
abbrev pub IsKeyOf : List Piece → Text → Type 0
IsKeyOf [] [] = Unit {0}
IsKeyOf (p ∷ ps) (b ∷ bs) =
    ((IsKeyRune p.rune × (b ≡ p.rune)) ⊎ (¬ IsKeyRune p.rune × (b ≡ 95))) × IsKeyOf ps bs
IsKeyOf _ _ = ⊥

is_key_rune_cases :
    (r : ℕ) → ((is_key_rune r ≡ true) × IsKeyRune r) ⊎ ((is_key_rune r ≡ false) × ¬ IsKeyRune r)
unfolding is_key_rune
is_key_rune_cases r = elim (Bool-cases (is_key_rune r)) [
  | inl e ↦ inl (e, ground arith)
  | inr e ↦ inr (e, λ h. ground arith)
]

key_of_pieces_lem :
    (ps : List Piece) → IsKeyOf ps (key_of_pieces ps) × All IsKeyRune (key_of_pieces ps)
unfolding key_of_pieces
key_of_pieces_lem [] = (tt, tt)
key_of_pieces_lem (p ∷ ps) =
    let (kept, safe) = key_of_pieces_lem ps in
    elim (is_key_rune_cases p.rune) [
      | inl (test, is_safe) ↦ rw test ((inl (is_safe, refl), kept), (is_safe, safe))
      | inr (test, not_safe) ↦ rw test ((inr (not_safe, refl), kept), (ground arith, safe))
    ]

-- Whatever the identifier, its workspace key has one character for each of its runes: the rune itself
-- where it is a letter, a digit, ".", "_" or "-", and "_" otherwise. So a key has these characters
-- only, and no path separator.
pub workspace_key_safe :
    (identifier : Text)
    → IsKeyOf (pieces identifier) (workspace_key identifier)
      × All IsKeyRune (workspace_key identifier)
unfolding workspace_key
workspace_key_safe identifier = key_of_pieces_lem (pieces identifier)

workspace_key_test : workspace_key (ascii "ab/../C-1") ≡ ascii "ab_.._C-1"
unfolding workspace_key
workspace_key_test = refl
