-- ===== src/Workspace/Inside.antt =====
-- The safety invariants of internal/workspace/workspace.go: where the directory of an issue lies and
-- where the agent starts.
use my_symphony.Workspace.{
  Os, Manager, path_for, assert_contained, ensure_dir, after_create, create_for_issue, escapes,
  assert_launch_cwd,
}
use my_symphony.Domain.{Workspace}
use my_symphony.Domain.Keys.{workspace_key}
use my_symphony.Go.Filepath.{rel_parts, abs, clean, elements, rel, strip_shared, join_slash}
use my_symphony.Base.{
  sym, inr, inl, ap, Result-cases, Option-cases, none, map, ◌≡◌, ◌∷◌, ◌++◌, true, some, refl, ok,
  false, arith, [], List,
}
use my_symphony.Go.Strings.{has_prefix}
use my_symphony.Go.Utf8.{ascii, text_eq_iff, text_eq, Text}
use my_symphony.Workspace.Place.{path_for-Place, Place}

strip_shared-prefix :
    (bs ts : List Text) → (strip_shared bs ts).0 ≡ [] → ts ≡ bs ++ (strip_shared bs ts).1
unfolding strip_shared
strip_shared-prefix [] ts h = refl
strip_shared-prefix (b ∷ bs) [] h = ground arith
strip_shared-prefix (b ∷ bs) (t ∷ ts) h = ground (arith, text_eq_iff b t, strip_shared-prefix bs ts)

-- A relative path that steps up escapes.
escapes-up : (ps : List Text) → escapes (join_slash (ascii ".." ∷ ps)) ≡ true
unfolding escapes join_slash text_eq has_prefix
escapes-up [] = refl
escapes-up (p ∷ ps) = refl

rel_parts-down :
    (bs ts : List Text) (r : Text) → rel_parts bs ts ≡ some r → escapes r ≡ false → bs ≡ []
unfolding rel_parts
rel_parts-down [] ts r is_rel h = refl
rel_parts-down (b ∷ bs) ts r is_rel h = ground (arith, escapes-up (map (λ _. ascii "..") bs ++ ts))

-- A relative path that does not escape goes down.
rel-prefix :
    (base target r : Text)
    → rel base target ≡ some r
    → escapes r ≡ false
    → elements target ≡ elements base ++ (strip_shared (elements base) (elements target)).1
unfolding rel
rel-prefix base target r is_rel h =
    let parts = strip_shared (elements base) (elements target) in
    let down = rel_parts-down parts.0 parts.1 r in
    strip_shared-prefix (elements base) (elements target) (ground (arith, down))

-- Where a path lies, both resolved: the elements of the root, then those below it, if there are any.
pub record IsInside {ℓ} {W : Type ℓ} (os : Os W) (m : Manager) (path : Text) : Type 0 where
  pub abs_path : Text
  pub abs_root : Text
  pub below : List Text
  pub is_path : abs os.getwd path ≡ ok abs_path
  pub is_root : abs os.getwd m.root ≡ ok abs_root
  pub prefix : elements (clean abs_path) ≡ elements (clean abs_root) ++ below

module _ {ℓ} {W : Type ℓ} (os : Os W) (m : Manager) where
  assert_contained-IsInside : (path : Text) → assert_contained os m path ≡ none → IsInside os m path
  unfolding assert_contained
  assert_contained-IsInside path h = elim (Result-cases (abs os.getwd path)) [
    | inr (e, is_err) ↦ absurd (ground arith)
    | inl (abs_path, is_path) ↦ elim (Result-cases (abs os.getwd m.root)) [
      | inr (e, is_err) ↦ absurd (ground arith)
      | inl (abs_root, is_root) ↦ elim (Option-cases (rel (clean abs_root) (clean abs_path))) [
        | inl is_none ↦ absurd (ground arith)
        | inr (r, is_rel) ↦ record {
          abs_path = abs_path;
          abs_root = abs_root;
          below = (strip_shared (elements (clean abs_root)) (elements (clean abs_path))).1;
          is_path = is_path;
          is_root = is_root;
          prefix = rel-prefix (clean abs_root) (clean abs_path) r is_rel (ground arith);
        }
      ]
    ]
  ]

  after_create-same :
      (before ws : Workspace) (w : W) → (after_create os m before w).1 ≡ ok ws → before ≡ ws
  unfolding after_create
  after_create-same before ws w h = ground arith

  -- A workspace that CreateForIssue returns has the path and the key of the issue's identifier. Its
  -- path resolves to the workspace root or to a path below it; where the root is absolute, and the key
  -- is not empty, "." or "..", it is the child of the root that the key names.
  pub create_for_issue-ok :
      (identifier : Text) (w : W) (ws : Workspace)
      → (create_for_issue os m identifier w).1 ≡ ok ws
      → (ws.path ≡ path_for m identifier)
        × (ws.key ≡ workspace_key identifier)
        × IsInside os m ws.path
        × Place m identifier
  unfolding create_for_issue
  create_for_issue-ok identifier w ws h =
      let path = path_for m identifier in
      elim (Option-cases (assert_contained os m path)) [
        | inr (e, outside) ↦ absurd (ground arith)
        | inl contained ↦ elim (Result-cases (ensure_dir os m path w).1) [
          | inr (e, is_err) ↦ absurd (ground arith)
          | inl (now, is_ok) ↦
              let before : Workspace = record {
                path = path;
                key = workspace_key identifier;
                created_now = now;
              } in
              let same = after_create-same before ws (ensure_dir os m path w).0 (ground arith) in
              (
                ap Workspace.path (sym same),
                ap Workspace.key (sym same),
                rw (sym same) (assert_contained-IsInside path contained),
                path_for-Place m identifier,
              )
        ]
      ]

  -- AssertLaunchCWD accepts a directory only where it is, resolved and cleaned, the workspace path of
  -- the issue. That path resolves to the workspace root or to a path below it; where the root is
  -- absolute, and the key is not empty, "." or "..", it is the child of the root that the key names.
  pub assert_launch_cwd-ok :
      (identifier cwd : Text)
      → assert_launch_cwd os m identifier cwd ≡ none
      → ((abs_cwd : Text) × (abs os.getwd cwd ≡ ok abs_cwd)
          × (clean abs_cwd ≡ clean (path_for m identifier)))
        × IsInside os m (path_for m identifier)
        × Place m identifier
  unfolding assert_launch_cwd
  assert_launch_cwd-ok identifier cwd h = elim (Result-cases (abs os.getwd cwd)) [
    | inr (e, is_err) ↦ absurd (ground arith)
    | inl (abs_cwd, is_ok) ↦
        let same = text_eq_iff (clean abs_cwd) (clean (path_for m identifier)) in
        (
          (abs_cwd, is_ok, ground (arith, same)),
          assert_contained-IsInside (path_for m identifier) (ground arith),
          path_for-Place m identifier,
        )
  ]
