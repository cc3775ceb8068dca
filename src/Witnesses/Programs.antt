-- ===== src/Witnesses/Programs.antt =====
-- The theorems on the commands and the watcher at concrete inputs.
use my_symphony.Go.Utf8.{text_eq, is_blank, Text, ascii}
use my_symphony.Orchestrator.Reconcile.{startup_terminal_cleanup, cleanup_all}
use my_symphony.Service.Ready.{run_service-IsReady, IsReady}
use my_symphony.Base.{◌≡◌, ◌∷◌, some, refl, pos, ok, none, negsuc, map, false, [], All}
use my_symphony.Workflow.{
  collect, trim_left_blanks, trim_bom, split_lines, scan_lines, raw_lines, normalize_fields,
  is_fence, drop_cr, parse, load, split_front_matter, config_of,
}
use my_symphony.Orchestrator.State.{starts_tick_timer, new_runtime_state}
use my_symphony.Config.{validate_dispatch}
use my_symphony.Watcher.{watch, timer_fires, file_event, Sources}
use my_symphony.Service.{serve_on, resolve_port, launch, run_service, Service}
use my_symphony.Watcher.Posts.{watch-IsUsable, IsUsable}
use my_symphony.Orchestrator.Timers.{schedule_tick}
use my_symphony.LinearGraphql.Tool.{new_tool, Http}
use my_symphony.Mcp.Replies.{serve_lines_lem}
use my_symphony.Witnesses.Configured.{process, built, srv_absolute, front_matter, build_tools}
use my_symphony.Mcp.{serve_lines, Json}
use my_symphony.Orchestrator.Loop.{start, run, new_orchestrator}
use my_symphony.Go.Filepath.{abs, clean, dir, up_to_slash}
use my_symphony.Witnesses.{first_env}
use my_symphony.Orchestrator.Settings.{Brings}
use my_symphony.Orchestrator.Boot.{IsBooted}
use my_symphony.Go.Value.{object}

-- The workflow file of the example configuration.
workflow_text : Text
workflow_text = ascii "---\nk: v\n---\nDo it.\n"

sources : Sources
sources = record {
  process = process;
  read_file = λ path. ok workflow_text;
  decode_yaml = λ front. ok (object front_matter);
}

service : Service
service = record {
  workflow_path = ascii "/srv/WORKFLOW.md";
  config = built;
  template = ascii "Do it.";
  port = none;
  orchestrator = record {
    cfg = built;
    template = ascii "Do it.";
    state = new_runtime_state (pos 30_000) (pos 10);
    tick_timer = some (pos 0);
    has_notifier = false;
    effects = starts_tick_timer (pos 0) ∷ [];
  };
}

program_tools : Unit {0}
unfolding build_tools sources service workflow_text run_service launch load parse split_front_matter
    config_of split_lines scan_lines raw_lines trim_bom is_fence trim_left_blanks drop_cr collect
    normalize_fields clean abs resolve_port serve_on up_to_slash dir new_orchestrator start
    validate_dispatch startup_terminal_cleanup cleanup_all schedule_tick new_runtime_state
program_tools = tt

service_starts : run_service sources first_env (λ port. none) (negsuc 0) [] ≡ ok service
unfolding program_tools
service_starts = refl

run_service-IsReady_example :
    IsBooted first_env service.config service.template false service.orchestrator
    × IsReady (run [] service.orchestrator).cfg
unfolding sources process
run_service-IsReady_example =
    run_service-IsReady sources (ascii "/srv") refl srv_absolute first_env (λ port. none) (negsuc 0)
      [] service [] service_starts tt

watch-IsUsable_example :
    All
      (Brings IsUsable)
      (watch sources
        (ascii "/srv/WORKFLOW.md")
        (file_event (ascii "WORKFLOW.md") ∷ timer_fires ∷ [])
        (record { armed = false; queue = [] })).queue
unfolding sources process
watch-IsUsable_example =
    watch-IsUsable sources (ascii "/srv") refl srv_absolute (ascii "/srv/WORKFLOW.md")
      (file_event (ascii "WORKFLOW.md") ∷ timer_fires ∷ []) (record { armed = false; queue = [] })
      tt

-- A decoder that reads every line as a call of the tool.
json : Json
json = record {
  decode_request =
      λ line. some (record { id = ascii "7"; method = ascii "tools/call"; params = line });
  decode_params = λ params. ok (record { name = ascii "linear_graphql"; arguments = params });
  inputs = record {
    decode_string = λ s. ok s;
    decode_input = λ s. ok (record { query = s; variables = none });
  };
}

http : Http
http = record {
  post = λ t input. ok (ascii "{}", 200);
  decode = λ body. some record { data_message = ascii "{}"; errors = [] };
}

serve_lines_lem_example :
    map
      (λ r. r.id)
      (serve_lines json http (new_tool [] (ascii "key")) (ascii "{viewer{id}}" ∷ [])).1
    ≡ ascii "7" ∷ []
unfolding json is_blank text_eq
serve_lines_lem_example =
    (serve_lines_lem json http (new_tool [] (ascii "key")) (ascii "{viewer{id}}" ∷ [])).0
