-- ===== src/Witnesses/Workers.antt =====
-- The theorems on workers, workspaces and the tool at concrete inputs.
use my_symphony.Runner.{Answers, RunnerConfig, new_runner}
use my_symphony.Runner.Turns.{run_worker}
use my_symphony.Runner.Attempt.{IsCleanRun, run_worker_lem}
use my_symphony.Workspace.{
  escapes, after_create, script_for, hook_timeout, ensure_dir, assert_contained, Os, Manager, found,
  made, succeeded, path_for, create_for_issue, run_hook, cleanup, assert_launch_cwd,
}
use my_symphony.Workspace.Contained.{IsLocal, manager-local}
use my_symphony.Workspace.Inside.{IsInside, create_for_issue-ok, assert_launch_cwd-ok}
use my_symphony.LinearGraphql.Parse.{strip_graphql, is_letter, count_operations, count_start}
use my_symphony.LinearGraphql.Rounds.{count_operations-Counts, Strips, Counts}
use my_symphony.LinearGraphql.Document.{
  Definition, named, anonymous, query, fragment, byte, nest, done, print, operations, IsDefinition,
}
use my_symphony.LinearGraphql.Printed.{count_operations-print}
use my_symphony.LinearGraphql.Tool.{reject, of_envelope, Tool, Input, Http, execute}
use my_symphony.LinearGraphql.Posts.{IsPostable, IsSuccess, execute_lem, execute-success}
use my_symphony.Domain.{Workspace}
use my_symphony.Domain.Keys.{workspace_key}
use my_symphony.Go.Utf8.{text_eq, is_blank, Text, ascii}
use my_symphony.Witnesses.{issue_a}
use my_symphony.Base.{
  ◌⊎◌, ◌≡◌, some, refl, List, All, ◌≤◌, ◌∷◌, ◌+◌, ℕ, true, pos_part, pos, ok, none, false, arith,
  [],
}
use my_symphony.Go.Filepath.{
  elements, rel, join, clean, abs, strip_shared, split_slash, rel_parts, join_slash, is_abs,
  clean_step, clean_parts,
}
use my_symphony.Go.Strings.{trim_space, has_prefix}
use my_symphony.Workspace.Place.{Place}

two_turns : RunnerConfig
two_turns = record {
  template = ascii "Work.";
  prompt_override = false;
  active_states = ascii "Todo" ∷ [];
  max_turns = pos 2;
}

obliging : Answers
obliging = record {
  create =
      λ h identifier. ok record { path = ascii "/w/AB-a"; key = ascii "AB-a"; created_now = true };
  hook = λ h name path. none;
  launch_cwd = λ h identifier cwd. none;
  turn = λ h prompt. none;
  states = λ h ids. ok (issue_a ∷ []);
  render = λ template issue attempt. ok template;
}

run_worker_lem_example :
    IsCleanRun
      (pos_part (new_runner two_turns).max_turns)
      (run_worker obliging (new_runner two_turns) issue_a none [])
run_worker_lem_example = run_worker_lem obliging two_turns issue_a none

-- A world that counts the directories removed; every path is a directory that is there.
counting_os : Os ℕ
counting_os = record {
  getwd = ok (ascii "/");
  stat = λ path w. found true;
  mkdir_all = λ path w. (w, none);
  mkdir = λ path w. (w, made);
  remove_all = λ path w. (w + 1, none);
  bash_lc = λ script path timeout w. (w, succeeded);
}

manager : Manager
manager = record {
  root = ascii "/w";
  hooks = record {
    after_create = ascii "make";
    before_run = [];
    after_run = [];
    before_remove = ascii "make clean";
    timeout_ms = pos 60_000;
  };
}

at_least_three : IsLocal counting_os manager (path_for manager (ascii "AB-1")) (λ w. 3 ≤ w)
unfolding counting_os
at_least_three = record {
  root_kept = λ w h. h;
  made_kept = λ w h. h;
  removed_kept = λ w h. omega arith;
  command_kept = λ script timeout w h. h;
}

manager-local_example :
    (3 ≤ (create_for_issue counting_os manager (ascii "AB-1") 3).0)
    × (3
        ≤ (run_hook counting_os manager (ascii "before_run") (path_for manager (ascii "AB-1")) 3).0)
    × (3 ≤ (cleanup counting_os manager (ascii "AB-1") 3).0)
manager-local_example =
    manager-local counting_os manager (ascii "AB-1") (λ w. 3 ≤ w) at_least_three
      (ascii "before_run") 3 (omega arith)

-- What the tests of the workspace manager compute with.
manager_tools : Unit {0}
unfolding counting_os manager create_for_issue assert_contained ensure_dir after_create path_for
    run_hook script_for hook_timeout assert_launch_cwd escapes workspace_key join abs clean rel
    elements clean_parts clean_step split_slash is_abs join_slash strip_shared rel_parts text_eq
    is_blank has_prefix trim_space
manager_tools = tt

workspace_one : Workspace
workspace_one = record { path = ascii "/w/AB-1"; key = ascii "AB-1"; created_now = false }

created : (create_for_issue counting_os manager (ascii "AB-1") 0).1 ≡ ok workspace_one
unfolding manager_tools workspace_one
created = refl

create_for_issue-ok_example :
    (workspace_one.path ≡ path_for manager (ascii "AB-1"))
    × (workspace_one.key ≡ workspace_key (ascii "AB-1"))
    × IsInside counting_os manager workspace_one.path
    × Place manager (ascii "AB-1")
create_for_issue-ok_example =
    create_for_issue-ok counting_os manager (ascii "AB-1") 0 workspace_one created

launched : assert_launch_cwd counting_os manager (ascii "AB-1") (ascii "w/./AB-1") ≡ none
unfolding manager_tools
launched = refl

assert_launch_cwd-ok_example :
    ((abs_cwd : Text) × (abs counting_os.getwd (ascii "w/./AB-1") ≡ ok abs_cwd)
      × (clean abs_cwd ≡ clean (path_for manager (ascii "AB-1"))))
    × IsInside counting_os manager (path_for manager (ascii "AB-1"))
    × Place manager (ascii "AB-1")
assert_launch_cwd-ok_example =
    assert_launch_cwd-ok counting_os manager (ascii "AB-1") (ascii "w/./AB-1") launched

count_operations-Counts_example :
    Strips (ascii "{a}#{b}") (strip_graphql (ascii "{a}#{b}"))
    × Counts (strip_graphql (ascii "{a}#{b}")) count_start (count_operations (ascii "{a}#{b}"))
count_operations-Counts_example = count_operations-Counts (ascii "{a}#{b}")

-- "query Q{a{b}}\nfragment F{c}{d}".
document : List Definition
document =
    named [] query (ascii "Q") (byte b'a' (nest (byte b'b' done) done))
    ∷ named (ascii "\n") fragment (ascii "F") (byte b'c' done)
    ∷ anonymous [] (byte b'd' done)
    ∷ []

valid : All IsDefinition document
unfolding document is_letter
valid = (
  (tt, (refl, tt), (refl, ((refl, tt), tt))),
  ((((refl, refl), tt), (refl, tt), (refl, tt)), ((tt, (refl, tt)), tt)),
)

count_operations-print_example : count_operations (print document) ≡ operations document
count_operations-print_example = count_operations-print document valid

tool : Tool
tool = record { endpoint = ascii "https://example.com"; api_key = ascii "key" }

viewer : Input
viewer = record { query = ascii "{viewer{id}}"; variables = none }

answering : Http
answering = record {
  post = λ t input. ok (ascii "{}", 200);
  decode = λ body. some record { data_message = ascii "{}"; errors = [] };
}

execute_lem_example :
    (((execute answering tool viewer).0 ≡ viewer ∷ []) × IsPostable tool viewer)
    ⊎ (((execute answering tool viewer).0 ≡ [])
        × ¬ IsPostable tool viewer
        × ((execute answering tool viewer).1.success ≡ false))
execute_lem_example = execute_lem answering tool viewer

succeeds : (execute answering tool viewer).1.success ≡ true
unfolding answering tool viewer execute reject of_envelope count_operations trim_space is_blank
succeeds = refl

execute-success_example : IsSuccess answering tool viewer (execute answering tool viewer).1
execute-success_example = execute-success answering tool viewer succeeds
