-- ===== src/Workspace/Place.antt =====
-- Where PathFor of internal/workspace/workspace.go puts the directory of an issue.
use my_symphony.Workspace.{Manager, path_for}
use my_symphony.Domain.Keys.{workspace_key, workspace_key_safe, IsKeyRune}
use my_symphony.Go.Filepath.{elements, is_abs, clean, join}
use my_symphony.Go.Cleaned.{NoSlash, IsName, elements-clean, elements-child}
use my_symphony.Go.Utf8.{ascii, text_eq, is_blank, Text}
use my_symphony.Base.{
  ◌≡◌, ◌∷◌, ◌∙◌, ◌||◌, ◌++◌, true, refl, false, arith, ap, [], Bool, All, Bool-cases, inl, inr,
}

-- A key that is empty, "." or "..".
abbrev pub is_dots : Text → Bool
is_dots key = is_blank key || text_eq key (ascii ".") || text_eq key (ascii "..")

-- The path of an issue: where the root is absolute, the child of the root that the key names, unless
-- the key is empty, "." or "..".
pub data Place (m : Manager) (identifier : Text) : Type 0 where
  child_of_root :
      elements (path_for m identifier) ≡ elements m.root ++ (workspace_key identifier ∷ [])
      → Place m identifier
  at_dots : is_dots (workspace_key identifier) ≡ true → Place m identifier
  relative_root : is_abs m.root ≡ false → Place m identifier

key-NoSlash : (key : Text) → All IsKeyRune key → NoSlash key
key-NoSlash [] h = tt
key-NoSlash (b ∷ key) h = (ground arith, key-NoSlash key h.1)

is_abs-append : (root rest : Text) → is_abs root ≡ true → is_abs (root ++ rest) ≡ true
unfolding is_abs
is_abs-append [] rest h = absurd (ground arith)
is_abs-append (b ∷ root) rest h = h

join-clean :
    (root key : Text)
    → is_abs root ≡ true
    → is_blank key ≡ false
    → join root key ≡ clean (root ++ b'/' ∷ key)
unfolding join is_abs is_blank
join-clean [] key h k = absurd (ground arith)
join-clean (b ∷ root) key h k = rw k refl

pub path_for-Place : (m : Manager) (identifier : Text) → Place m identifier
unfolding path_for
path_for-Place m identifier =
    let key = workspace_key identifier in
    elim (Bool-cases (is_abs m.root)) [
      | inr relative ↦ relative_root relative
      | inl rooted ↦ elim (Bool-cases (is_dots key)) [
        | inl dots ↦ at_dots dots
        | inr name ↦
            let full = is_abs-append m.root (b'/' ∷ key) rooted in
            let is_name : IsName key =
              (ground arith, ground arith, key-NoSlash key (workspace_key_safe identifier).1) in
            child_of_root (
              ap elements (join-clean m.root key rooted (ground arith))
              ∙ elements-clean (m.root ++ b'/' ∷ key) full
              ∙ elements-child m.root key rooted full is_name)
      ]
    ]
