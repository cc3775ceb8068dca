-- ===== src/Orchestrator/Update.antt =====
-- onAgentUpdate and appendActivity of internal/orchestrator/orchestrator.go.
pub mod Activity
use my_symphony.Base.{
  ℕ, ◌+◌, ◌-◌, ◌≡◌, Bool, true, false, not, ◌||◌, if◌then◌else◌, List, [], ◌∷◌, ◌++◌, Option, none,
  some, ℤ, pos, ltb, ltb_ℤ, length, drop,
}
use my_symphony.Go.Int64.{add64}
use my_symphony.Go.Utf8.{Text, ascii, text_eq, is_blank}
use my_symphony.Go.Strconv.{atoi}
use my_symphony.Go.Value.{Value, is_null}
use my_symphony.Go.Maps.{get, put}
use my_symphony.Logging.{truncate}
use my_symphony.Domain.{AgentActivity, LiveSession, Totals}
use my_symphony.Orchestrator.State.{Orchestrator, RunningEntry, set_running}
use my_symphony.Orchestrator.Env.{AgentEvent, Usage}

abbrev pub max_recent_activity : ℕ
max_recent_activity = 50

-- appendActivity.
unfoldable pub append_activity : List AgentActivity → AgentActivity → List AgentActivity
append_activity hist act =
    let longer = hist ++ act ∷ [] in
    if ltb max_recent_activity (length longer)
    then drop (length longer - max_recent_activity) longer
    else longer

unfoldable pub input_of : Option Usage → ℤ
input_of none = pos 0
input_of (some u) = u.input_tokens

unfoldable pub output_of : Option Usage → ℤ
output_of none = pos 0
output_of (some u) = u.output_tokens

-- The activity that an event records.
unfoldable pub activity_of : AgentEvent → AgentActivity
unfolding input_of output_of
activity_of m = record {
  timestamp = m.timestamp;
  event = m.event;
  turn_id = m.turn_id;
  message = m.message;
  detail = m.detail;
  input_tokens = input_of m.step_usage;
  output_tokens = output_of m.step_usage;
}

-- The steps of onAgentUpdate on the session, in the code's order.
unfoldable pub update_event : AgentEvent → LiveSession → LiveSession
update_event m s = record s {
  last_agent_timestamp = some m.timestamp;
  last_agent_event = some m.event;
}

unfoldable pub update_message : AgentEvent → LiveSession → LiveSession
update_message m s = if is_blank m.message then s else record s {
  last_agent_message = truncate m.message;
  recent_activity = append_activity s.recent_activity (activity_of m);
}

unfoldable pub update_session_id : AgentEvent → LiveSession → LiveSession
update_session_id m s =
    if is_blank m.session_id || text_eq m.session_id (ascii "pending")
    then s
    else record s { session_id = m.session_id; thread_id = m.session_id }

-- The greater of the turn that an id names and the count so far.
unfoldable pub count_turn : Option ℤ → ℤ → ℤ
count_turn none count = count
count_turn (some n) count = if ltb_ℤ count n then n else count

unfoldable pub update_turn : AgentEvent → LiveSession → LiveSession
update_turn m s =
    if is_blank m.turn_id
    then s
    else record s { turn_id = m.turn_id; turn_count = count_turn (atoi m.turn_id) s.turn_count }

unfoldable pub update_pid : AgentEvent → LiveSession → LiveSession
update_pid m s = elim m.agent_pid [ none ↦ s | some pid ↦ record s { agent_pid = some pid } ]

unfoldable pub update_usage : AgentEvent → LiveSession → LiveSession
update_usage m s = elim m.usage [
  | none ↦ s
  | some u ↦ record s {
    claude_input_tokens = add64 s.claude_input_tokens u.input_tokens;
    claude_output_tokens = add64 s.claude_output_tokens u.output_tokens;
    claude_total_tokens = add64 s.claude_total_tokens u.total_tokens;
    last_reported_input_tokens = u.input_tokens;
    last_reported_output_tokens = u.output_tokens;
    last_reported_total_tokens = u.total_tokens;
  }
]

unfoldable pub update_session : AgentEvent → LiveSession → LiveSession
update_session m s =
    update_usage m
      (update_pid m (update_turn m (update_session_id m (update_message m (update_event m s)))))

-- The global totals after an event.
unfoldable pub add_usage : Option Usage → Totals → Totals
add_usage none t = t
add_usage (some u) t = record t {
  input_tokens = add64 t.input_tokens u.input_tokens;
  output_tokens = add64 t.output_tokens u.output_tokens;
  total_tokens = add64 t.total_tokens u.total_tokens;
}

-- onAgentUpdate.
unfoldable pub on_agent_update : Text → AgentEvent → Orchestrator → Orchestrator
unfolding add_usage
on_agent_update id m o = elim (get id o.running) [
  | none ↦ o
  | some e ↦ record o {
    state = record (o.state) {
      running = put id (record e { session = update_session m e.session }) o.running;
      claude_totals = add_usage m.usage o.claude_totals;
      claude_rate_limits = if is_null m.rate_limits then o.claude_rate_limits else m.rate_limits;
    };
  }
]
