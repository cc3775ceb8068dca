-- ===== src/Workspace/Contained.antt =====
-- What the operations of internal/workspace/workspace.go touch of the world.
use my_symphony.Workspace.{
  script_for, Os, Manager, path_for, run_hook, ensure_dir, after_create, create_for_issue,
  before_remove, cleanup, hook_timeout,
}
use my_symphony.Base.{true, false, Bool, arith, ℤ}
use my_symphony.Go.Utf8.{ascii, Text}
use my_symphony.Domain.Keys.{workspace_key}

-- A property of the world that the work on one directory keeps: making the root, making and
-- removing the directory, and running a command in it.
pub record IsLocal {ℓ κ} {W : Type ℓ} (os : Os W) (m : Manager) (path : Text) (P : W → Type κ)
    : Type (ℓ ⊔ κ) where
  pub root_kept : (w : W) → P w → P (os.mkdir_all m.root w).0
  pub made_kept : (w : W) → P w → P (os.mkdir path w).0
  pub removed_kept : (w : W) → P w → P (os.remove_all path w).0
  pub command_kept :
      (script : Text) (timeout : ℤ) (w : W) → P w → P (os.bash_lc script path timeout w).0

module _ {ℓ κ} {W : Type ℓ} (os : Os W) (m : Manager) (path : Text) (P : W → Type κ)
    (local : IsLocal os m path P) where
  run_hook-local : (name : Text) (w : W) → P w → P (run_hook os m name path w).0
  unfolding run_hook
  run_hook-local name w h =
      ground (arith, local.command_kept (script_for m name) (hook_timeout m) w h)

  ensure_dir-local : (w : W) → P w → P (ensure_dir os m path w).0
  unfolding ensure_dir
  ensure_dir-local w h =
      ground (arith, local.root_kept w h, local.made_kept (os.mkdir_all m.root w).0)

  after_create-local :
      (key : Text) (now : Bool) (w : W)
      → P w
      → P (after_create os m record { path = path; key = key; created_now = now } w).0
  unfolding after_create
  after_create-local key now w h =
      let hooked = run_hook-local (ascii "after_create") w h in
      ground
        (arith, hooked, local.removed_kept (run_hook os m (ascii "after_create") path w).0 hooked)

  before_remove-local : (w : W) → P w → P (before_remove os m path w)
  unfolding before_remove
  before_remove-local w h = ground (arith, run_hook-local (ascii "before_remove") w h)

module _ {ℓ κ} {W : Type ℓ} (os : Os W) (m : Manager) (identifier : Text) (P : W → Type κ)
    (local : IsLocal os m (path_for m identifier) P) where
  create_for_issue-local : (w : W) → P w → P (create_for_issue os m identifier w).0
  unfolding create_for_issue
  create_for_issue-local w h =
      let path = path_for m identifier in
      let key = workspace_key identifier in
      let w1 = (ensure_dir os m path w).0 in
      let made = ensure_dir-local os m path P local w h in
      ground (
        arith,
        made,
        after_create-local os m path P local key true w1 made,
        after_create-local os m path P local key false w1 made,
      )

  cleanup-local : (w : W) → P w → P (cleanup os m identifier w).0
  unfolding cleanup
  cleanup-local w h = ground (
    arith,
    local.removed_kept (before_remove os m (path_for m identifier) w),
    before_remove-local os m (path_for m identifier) P local w h,
  )

  -- A property of the world that making the workspace root, making and removing the directory of
  -- the issue, and running commands in that directory keep is kept by CreateForIssue, by every
  -- hook run there and by Cleanup, whether they succeed or fail: nothing else is touched.
  pub manager-local :
      (name : Text) (w : W)
      → P w
      → P (create_for_issue os m identifier w).0
        × P (run_hook os m name (path_for m identifier) w).0
        × P (cleanup os m identifier w).0
  manager-local name w h = (
    create_for_issue-local w h,
    run_hook-local os m (path_for m identifier) P local name w h,
    cleanup-local w h,
  )
