-- ===== src/Watcher/Posts.antt =====
-- What the watcher posts.
use my_symphony.Base.{
  ◌&&◌, if_elim, arith, Bool, All-append, All, ◌≡◌, ◌∷◌, ◌<◌, ◌++◌, true, ok, none, length, inr,
  inl, false, [], Result-cases, Option-cases, List,
}
use my_symphony.Go.Utf8.{text_eq, Text}
use my_symphony.Config.Build.{new_config}
use my_symphony.Orchestrator.Env.{reload_config, Event}
use my_symphony.Orchestrator.Queue.{offer, has_room, event_capacity}
use my_symphony.Config.Valid.{new_config-IsValid, IsValid}
use my_symphony.Watcher.{
  watch, watch_step, watch_failed, timer_fires, file_event, abs_or_empty, Watch, Signal, reload,
  Sources,
}
use my_symphony.Go.Filepath.{dir, is_abs}
use my_symphony.Config.{validate_dispatch, Config}
use my_symphony.Config.Lookups.{validate_dispatch_iff, IsDispatchable}
use my_symphony.Workflow.{load, Definition}
use my_symphony.Orchestrator.Settings.{Brings}

-- A configuration that may be put to use.
pub record IsUsable (c : Config) : Type 0 where
  pub valid : IsValid c
  pub dispatchable : IsDispatchable c

-- What a file on disk makes of the channel: nothing, or one reload of what it says.
pub data Reloads (from : Sources) (path : Text) (q : List Event) : List Event → Type 0 where
  kept : Reloads from path q q
  posts :
      (def : Definition) (c : Config)
      → load from.read_file from.decode_yaml path ≡ ok def
      → new_config from.process def.config (dir path) ≡ ok c
      → IsUsable c
      → length q < event_capacity
      → Reloads from path q (q ++ (reload_config c def.prompt_template ∷ []))

Reloads-IsUsable :
    (from : Sources) (path : Text) (q r : List Event)
    → Reloads from path q r
    → All (Brings IsUsable) q
    → All (Brings IsUsable) r
Reloads-IsUsable from path q r kept h = h
Reloads-IsUsable from path q r (posts def c e f usable room) h =
    All-append (Brings IsUsable) q (reload_config c def.prompt_template ∷ []) h (usable, tt)

module _ (from : Sources) (wd : Text) (is_wd : from.process.getwd ≡ ok wd)
    (absolute : is_abs wd ≡ true) where
  offer-Reloads :
      (path : Text) (q : List Event) (def : Definition) (c : Config)
      → load from.read_file from.decode_yaml path ≡ ok def
      → new_config from.process def.config (dir path) ≡ ok c
      → validate_dispatch c ≡ none
      → Reloads from path q (offer false true (reload_config c def.prompt_template) q).0
  unfolding offer has_room
  offer-Reloads path q def c e f g =
      let usable : IsUsable c = record {
        valid = new_config-IsValid from.process def.config (dir path) wd c is_wd absolute f;
        dispatchable = (validate_dispatch_iff c).0 g;
      } in
      if_elim (λ (r : List Event × Bool). Reloads from path q r.0) (has_room q && true)
        (λ room. posts def c e f usable (ground (arith, room))) (λ _. kept)

  reload-Reloads : (path : Text) (q : List Event) → Reloads from path q (reload from path q)
  unfolding reload
  reload-Reloads path q = elim (Result-cases (load from.read_file from.decode_yaml path)) [
    | inr (_, e) ↦ rw (e, reload) kept
    | inl (def, e) ↦ elim (Result-cases (new_config from.process def.config (dir path))) [
      | inr (_, f) ↦ rw (e, reload, f) kept
      | inl (c, f) ↦ elim (Option-cases (validate_dispatch c)) [
        | inr (_, g) ↦ rw (e, reload, f, g) kept
        | inl g ↦ rw (e, reload, f, g) (offer-Reloads path q def c e f g)
      ]
    ]
  ]

  watch_step-IsUsable :
      (path : Text) (x : Signal) (w : Watch)
      → All (Brings IsUsable) w.queue
      → All (Brings IsUsable) (watch_step from path x w).queue
  unfolding watch_step
  watch_step-IsUsable path (file_event name) w h =
      if_elim (λ (v : Watch). All (Brings IsUsable) v.queue)
        (text_eq (abs_or_empty from name) (abs_or_empty from path)) (λ _. h) (λ _. h)
  watch_step-IsUsable path (watch_failed message) w h = h
  watch_step-IsUsable path timer_fires w h =
      if_elim (λ (v : Watch). All (Brings IsUsable) v.queue) w.armed
        (λ _.
          Reloads-IsUsable from path w.queue (reload from path w.queue)
            (reload-Reloads path w.queue) h)
        (λ _. h)

  -- Whatever fsnotify reports and whatever the file holds, the watcher posts reloads only of valid
  -- configurations that pass the preflight check.
  pub watch-IsUsable :
      (path : Text) (xs : List Signal) (w : Watch)
      → All (Brings IsUsable) w.queue
      → All (Brings IsUsable) (watch from path xs w).queue
  unfolding watch
  watch-IsUsable path [] w h = h
  watch-IsUsable path (x ∷ xs) w h =
      watch-IsUsable path xs (watch_step from path x w) (watch_step-IsUsable path x w h)
