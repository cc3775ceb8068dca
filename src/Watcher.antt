-- ===== src/Watcher.antt =====
-- internal/watcher/watcher.go: the debounced reload of the workflow file. What fsnotify reports is a
-- list of signals; the timer fires where it is armed.
pub mod Posts
use my_symphony.Go.Utf8.{text_eq, Text}
use my_symphony.Base.{◌∷◌, true, some, ok, none, if◌then◌else◌, false, err, [], Result, List, Bool}
use my_symphony.Orchestrator.Env.{reload_config, Event}
use my_symphony.Go.Value.{Value}
use my_symphony.Config.{validate_dispatch}
use my_symphony.Config.Build.{new_config}
use my_symphony.Go.Os.{Process}
use my_symphony.Orchestrator.Queue.{offer}
use my_symphony.Go.Filepath.{dir, abs}
use my_symphony.Workflow.{load}

-- What a reload reads with: the process, the file system and the YAML decoder.
pub record Sources : Type 0 where
  pub process : Process
  pub read_file : Text → Result Text Text
  pub decode_yaml : Text → Result Text Value

-- reload: the channel of the loop after it.
unfoldable pub reload : Sources → Text → List Event → List Event
unfolding offer
reload from path q = elim (load from.read_file from.decode_yaml path) [
  | err _ ↦ q
  | ok def ↦ elim (new_config from.process def.config (dir path)) [
    | err _ ↦ q
    | ok cfg ↦ elim (validate_dispatch cfg) [
      | some _ ↦ q
      | none ↦ (offer false true (reload_config cfg def.prompt_template) q).0
    ]
  ]
]

-- The signals that the loop of Run selects, and the end of the timer.
pub data Signal : Type 0 where
  file_event : (name : Text) → Signal
  watch_failed : (message : Text) → Signal
  timer_fires : Signal

-- The debounce timer is armed or not.
pub record Watch : Type 0 where
  pub armed : Bool
  pub queue : List Event

-- filepath.Abs, whose error the loop leaves out with an empty path.
unfoldable pub abs_or_empty : Sources → Text → Text
abs_or_empty from name = elim (abs from.process.getwd name) [ ok p ↦ p | err _ ↦ [] ]

-- One round of the loop of Run, and the function of its timer.
unfoldable pub watch_step : Sources → Text → Signal → Watch → Watch
unfolding abs_or_empty
watch_step from path (file_event name) w =
    if text_eq (abs_or_empty from name) (abs_or_empty from path)
    then record w { armed = true }
    else w
watch_step from path (watch_failed message) w = w
watch_step from path timer_fires w =
    if w.armed then record { armed = false; queue = reload from path w.queue } else w

unfoldable pub watch : Sources → Text → List Signal → Watch → Watch
watch from path [] w = w
watch from path (x ∷ xs) w = watch from path xs (watch_step from path x w)
