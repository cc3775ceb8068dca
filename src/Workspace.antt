-- ===== src/Workspace.antt =====
-- Manager of internal/workspace/workspace.go: the directory of an issue and its hooks.
-- The operating system is a parameter: the world is a type `W`, and a call of package os or of a
-- hook's shell is a function on it. The log is left out.
pub mod Contained
pub mod Place
pub mod Inside
use my_symphony.Domain.{Workspace}
use my_symphony.Domain.Keys.{workspace_key}
use my_symphony.Go.Utf8.{Text, ascii, text_eq, is_blank}
use my_symphony.Go.Strings.{trim_space, has_prefix}
use my_symphony.Go.Filepath.{abs, clean, join, rel}
use my_symphony.Base.{
  ◌||◌, ◌/◌, ◌&&◌, ℤ, true, some, pos, ok, not, none, leb_ℤ, if◌then◌else◌, false, err, [], Result,
  Option, Bool,
}
use my_symphony.Go.Int64.{mul64}

pub record Hooks : Type 0 where
  pub after_create : Text
  pub before_run : Text
  pub after_run : Text
  pub before_remove : Text
  pub timeout_ms : ℤ

pub record Manager : Type 0 where
  pub root : Text
  pub hooks : Hooks

-- What os.Stat, os.Mkdir and a hook's command answer.
pub data Stat : Type 0 where
  found : Bool → Stat
  not_exist : Stat
  stat_failed : Text → Stat

pub data Mkdir : Type 0 where
  made : Mkdir
  already_there : Mkdir
  mkdir_failed : Text → Mkdir

pub data Command : Type 0 where
  succeeded : Command
  deadline_exceeded : Command
  failed : Text → Command

-- `bash_lc script dir timeout` runs the script in `dir` for at most `timeout` nanoseconds.
pub record Os {ℓ} (W : Type ℓ) : Type ℓ where
  pub getwd : Result Text Text
  pub stat : Text → W → Stat
  pub mkdir_all : Text → W → W × Option Text
  pub mkdir : Text → W → W × Mkdir
  pub remove_all : Text → W → W × Option Text
  pub bash_lc : Text → Text → ℤ → W → W × Command

pub data WorkspaceError : Type 0 where
  not_a_directory : Text → WorkspaceError
  create_root_error : Text → WorkspaceError
  create_error : Text → WorkspaceError
  stat_error : Text → WorkspaceError
  hook_timed_out : Text → WorkspaceError
  hook_failed : Text → Text → WorkspaceError
  after_create_failed : WorkspaceError → WorkspaceError
  remove_error : Text → WorkspaceError
  resolve_cwd_error : Text → WorkspaceError
  wrong_cwd : Text → Text → WorkspaceError
  resolve_path_error : Text → WorkspaceError
  resolve_root_error : Text → WorkspaceError
  rel_error : WorkspaceError
  escapes_root : Text → Text → WorkspaceError

-- PathFor.
unfoldable pub path_for : Manager → Text → Text
path_for m identifier = join m.root (workspace_key identifier)

-- scriptFor.
unfoldable pub script_for : Manager → Text → Text
script_for m name =
    if text_eq name (ascii "after_create")
    then m.hooks.after_create
    else if text_eq name (ascii "before_run")
    then m.hooks.before_run
    else if text_eq name (ascii "after_run")
    then m.hooks.after_run
    else if text_eq name (ascii "before_remove")
    then m.hooks.before_remove
    else []

-- The timeout of a hook.
unfoldable pub hook_timeout : Manager → ℤ
unfolding mul64
hook_timeout m =
    let timeout = mul64 m.hooks.timeout_ms (pos 1_000_000) in
    if leb_ℤ timeout (pos 0) then pos 60_000_000_000 else timeout

unfoldable pub escapes : Text → Bool
escapes r = text_eq r (ascii "..") || has_prefix r (ascii "../")

module _ {ℓ} {W : Type ℓ} (os : Os W) (m : Manager) where
  -- assertContained.
  unfoldable pub assert_contained : Text → Option WorkspaceError
  assert_contained path = elim (abs os.getwd path) [
    | err e ↦ some (resolve_path_error e)
    | ok abs_path ↦ elim (abs os.getwd m.root) [
      | err e ↦ some (resolve_root_error e)
      | ok abs_root ↦ elim (rel (clean abs_root) (clean abs_path)) [
        | none ↦ some rel_error
        | some r ↦ if escapes r then some (escapes_root (clean abs_path) (clean abs_root)) else none
      ]
    ]
  ]

  -- RunHook.
  unfoldable pub run_hook : Text → Text → W → W × Option WorkspaceError
  run_hook name path w =
      let script = script_for m name in
      let (w1, result) = os.bash_lc script path (hook_timeout m) w in
      if is_blank (trim_space script) then (w, none) else elim result [
        | succeeded ↦ (w1, none)
        | deadline_exceeded ↦ (w1, some (hook_timed_out name))
        | failed e ↦ (w1, some (hook_failed name e))
      ]

  -- The `switch` of CreateForIssue: whether the directory was created now.
  unfoldable pub ensure_dir : Text → W → W × Result WorkspaceError Bool
  ensure_dir path w = elim (os.stat path w) [
    | found is_dir ↦ (w, if is_dir then ok false else err (not_a_directory path))
    | stat_failed e ↦ (w, err (stat_error e))
    | not_exist ↦
        let (w1, root_error) = os.mkdir_all m.root w in
        elim root_error [
          | some e ↦ (w1, err (create_root_error e))
          | none ↦
              let (w2, result) = os.mkdir path w1 in
              elim result [
                | made ↦ (w2, ok true)
                | already_there ↦ (w2, ok false)
                | mkdir_failed e ↦ (w2, err (create_error e))
              ]
        ]
  ]

  -- The after_create hook, whose failure removes the directory.
  unfoldable pub after_create : Workspace → W → W × Result WorkspaceError Workspace
  after_create ws w =
      let (w1, hook_error) = run_hook (ascii "after_create") ws.path w in
      if ws.created_now && not (is_blank (trim_space m.hooks.after_create))
      then elim hook_error [
        | none ↦ (w1, ok ws)
        | some e ↦ ((os.remove_all ws.path w1).0, err (after_create_failed e))
      ]
      else (w, ok ws)

  -- CreateForIssue.
  unfoldable pub create_for_issue : Text → W → W × Result WorkspaceError Workspace
  create_for_issue identifier w =
      let path = path_for m identifier in
      elim (assert_contained path) [
        | some e ↦ (w, err e)
        | none ↦
            let (w1, result) = ensure_dir path w in
            elim result [
              | err e ↦ (w1, err e)
              | ok now ↦
                  after_create
                    record { path = path; key = workspace_key identifier; created_now = now } w1
            ]
      ]

  -- The before_remove hook of Cleanup, whose failure is ignored.
  unfoldable pub before_remove : Text → W → W
  before_remove path w = elim (os.stat path w) [
    | found is_dir ↦
        if is_dir && not (is_blank (trim_space m.hooks.before_remove))
        then (run_hook (ascii "before_remove") path w).0
        else w
    | _ ↦ w
  ]

  -- Cleanup.
  unfoldable pub cleanup : Text → W → W × Option WorkspaceError
  cleanup identifier w =
      let path = path_for m identifier in
      elim (assert_contained path) [
        | some e ↦ (w, some e)
        | none ↦
            let (w1, result) = os.remove_all path (before_remove path w) in
            elim result [ none ↦ (w1, none) | some e ↦ (w1, some (remove_error e)) ]
      ]

  -- AssertLaunchCWD.
  unfoldable pub assert_launch_cwd : Text → Text → Option WorkspaceError
  assert_launch_cwd identifier cwd =
      let want = path_for m identifier in
      elim (abs os.getwd cwd) [
        | err e ↦ some (resolve_cwd_error e)
        | ok abs_cwd ↦
            if text_eq (clean abs_cwd) (clean want)
            then assert_contained want
            else some (wrong_cwd abs_cwd want)
      ]
