-- ===== src/Orchestrator/Update/Activity.antt =====
-- What an agent's events do to its session: a bounded history, and token accounts that agree.
use mathlib.Core.List.{append-nil, append_assoc}
use my_symphony.Base.{
  subst, pos, all, Bool-cases, inr, inl, false, Option-cases, ◌≤◌, ◌+◌, some, none, length-drop,
  length-append, drop-drop, ap, Option, ◌≡◌, ◌∷◌, ◌∙◌, ◌-◌, ◌++◌, ℕ, refl, ltb, length,
  if◌then◌else◌, if_elim, drop-append, drop, arith, [], List,
}
use my_symphony.Orchestrator.Update.{
  output_of, input_of, activity_of, update_usage, update_turn, update_session_id, update_pid,
  update_message, update_event, on_agent_update, update_session, add_usage, append_activity,
}
use my_symphony.Domain.{Totals, LiveSession, AgentActivity}
use my_symphony.Domain.Snapshot.{TokenCounts}
use my_symphony.Orchestrator.Env.{Usage, AgentEvent}
use my_symphony.Go.Int64.{add64}
use my_symphony.Go.Utf8.{is_blank, text_eq_refl, text_eq, Text}
use my_symphony.Orchestrator.State.{RunningEntry, Orchestrator}
use my_symphony.Go.Maps.{get, get-put}

-- The newest entries of a list, at most `n` of them.
pub newest : ℕ → List AgentActivity → List AgentActivity
newest n xs = drop (length xs - n) xs

-- The bound of append_activity as a variable.
append_to : ℕ → List AgentActivity → AgentActivity → List AgentActivity
append_to n hist act =
    let longer = hist ++ act ∷ [] in
    if ltb n (length longer) then drop (length longer - n) longer else longer

append_to-newest :
    (n : ℕ) (xs : List AgentActivity) (act : AgentActivity)
    → append_to n (newest n xs) act ≡ newest n (xs ++ act ∷ [])
unfolding append_to newest
append_to-newest n xs act =
    let all = xs ++ act ∷ [] in
    let kept = drop (length xs - n) all in
    let one_more : length all ≡ length xs + 1 = length-append xs (act ∷ []) in
    let rest : length kept ≡ length all - (length xs - n) = length-drop (length xs - n) all in
    rw (← drop-append (length xs - n) xs (act ∷ []) (omega arith)) (
      if_elim (λ r. r ≡ drop (length all - n) all) (ltb n (length kept))
        (λ long.
          drop-drop (length xs - n) (length kept - n) all
          ∙ ap (λ k. drop k all) (ground (arith, one_more, rest, long)))
        (λ short. ap (λ k. drop k all) (ground (arith, one_more, rest, short))))

append_activity-newest :
    (xs : List AgentActivity) (act : AgentActivity)
    → append_activity (newest 50 xs) act ≡ newest 50 (xs ++ act ∷ [])
unfolding append_activity append_to
append_activity-newest xs act = append_to-newest 50 xs act

length-newest-le : (n : ℕ) (xs : List AgentActivity) → length (newest n xs) ≤ n
unfolding newest
length-newest-le n xs = omega (arith, length-drop (length xs - n) xs)

-- What a message is told as.
abbrev pub told : AgentEvent → AgentActivity
told m = record {
  timestamp = m.timestamp;
  event = m.event;
  turn_id = m.turn_id;
  message = m.message;
  detail = m.detail;
  input_tokens = elim m.step_usage [ none ↦ pos 0 | some u ↦ u.input_tokens ];
  output_tokens = elim m.step_usage [ none ↦ pos 0 | some u ↦ u.output_tokens ];
}

activity_of_lem : (m : AgentEvent) → activity_of m ≡ told m
unfolding activity_of input_of output_of
activity_of_lem m = elim (Option-cases m.step_usage) [ inl e ↦ rw e refl | inr (u, e) ↦ rw e refl ]

-- The messages of events, in their order: an event without a text has none.
abbrev pub messages : List AgentEvent → List AgentActivity
messages [] = []
messages (m ∷ ms) = if is_blank m.message then messages ms else told m ∷ messages ms

message-activity :
    (m : AgentEvent) (s : LiveSession)
    → (update_message m s).recent_activity ≡ (
        if is_blank m.message
        then s.recent_activity
        else append_activity s.recent_activity (activity_of m))
unfolding update_message
message-activity m s = ground arith

session_id-activity :
    (m : AgentEvent) (s : LiveSession) → (update_session_id m s).recent_activity ≡ s.recent_activity
unfolding update_session_id
session_id-activity m s = ground arith

turn-activity :
    (m : AgentEvent) (s : LiveSession) → (update_turn m s).recent_activity ≡ s.recent_activity
unfolding update_turn
turn-activity m s = ground arith

pid-activity :
    (m : AgentEvent) (s : LiveSession) → (update_pid m s).recent_activity ≡ s.recent_activity
unfolding update_pid
pid-activity m s = ground arith

usage-activity :
    (m : AgentEvent) (s : LiveSession) → (update_usage m s).recent_activity ≡ s.recent_activity
unfolding update_usage
usage-activity m s = ground arith

-- What one event makes of a history.
update_session-activity :
    (m : AgentEvent) (s : LiveSession)
    → (update_session m s).recent_activity ≡ (
        if is_blank m.message
        then s.recent_activity
        else append_activity s.recent_activity (activity_of m))
unfolding update_session update_event
update_session-activity m s =
    let s1 = update_event m s in
    let s2 = update_message m s1 in
    let s3 = update_session_id m s2 in
    let s4 = update_turn m s3 in
    usage-activity m (update_pid m s4)
    ∙ pid-activity m s4
    ∙ turn-activity m s3
    ∙ session_id-activity m s2
    ∙ message-activity m s1

update_session-newest :
    (m : AgentEvent) (ms : List AgentEvent) (xs : List AgentActivity) (s : LiveSession)
    → s.recent_activity ≡ newest 50 xs
    → (ys : List AgentActivity) × ((update_session m s).recent_activity ≡ newest 50 ys)
      × (ys ++ messages ms ≡ xs ++ messages (m ∷ ms))
update_session-newest m ms xs s h =
    let step = update_session-activity m s in
    elim (Bool-cases (is_blank m.message)) [
      | inl blank ↦ (xs, step ∙ rw blank h, rw blank refl)
      | inr full ↦ (
        xs ++ (told m ∷ []),
        step ∙ rw (full, h, activity_of_lem m) (append_activity-newest xs (told m)),
        rw full (append_assoc xs (told m ∷ []) (messages ms)),
      )
    ]

-- The events of one issue, one after the other.
abbrev pub update_all : Text → List AgentEvent → Orchestrator → Orchestrator
update_all id [] o = o
update_all id (m ∷ ms) o = update_all id ms (on_agent_update id m o)

-- The history of the session of an issue that runs is the newest 50 of some messages.
abbrev pub Holds : Text → Orchestrator → List AgentActivity → Type 0
Holds id o xs =
    (e : RunningEntry) × (get id o.running ≡ some e)
    × (e.session.recent_activity ≡ newest 50 xs)
    × (length e.session.recent_activity ≤ 50)

on_agent_update-running :
    (id : Text) (m : AgentEvent) (e : RunningEntry) (o : Orchestrator)
    → get id o.running ≡ some e
    → get id (on_agent_update id m o).running
      ≡ some (record e { session = update_session m e.session })
unfolding on_agent_update
on_agent_update-running id m e o g =
    rw (g, on_agent_update) (rw get-put (rw (text_eq_refl id) refl))

update_all-Holds :
    (id : Text) (ms : List AgentEvent) (xs : List AgentActivity) (e : RunningEntry)
    (o : Orchestrator)
    → get id o.running ≡ some e
    → e.session.recent_activity ≡ newest 50 xs
    → Holds id (update_all id ms o) (xs ++ messages ms)
update_all-Holds id [] xs e o g h = (e, g, rw append-nil h, rw h (length-newest-le 50 xs))
update_all-Holds id (m ∷ ms) xs e o g h =
    let (ys, step, all) = update_session-newest m ms xs e.session h in
    let e1 = record e { session = update_session m e.session } in
    subst (Holds id (update_all id (m ∷ ms) o)) all (
      update_all-Holds id ms ys e1 (on_agent_update id m o) (on_agent_update-running id m e o g)
        step)

-- After any events for an issue that runs with no history yet, the history of its session is the
-- newest 50 of the messages of all of them, in their order, each with its text and its tokens; events
-- without a text leave none.
pub update_all_lem :
    (id : Text) (ms : List AgentEvent) (e : RunningEntry) (o : Orchestrator)
    → get id o.running ≡ some e
    → e.session.recent_activity ≡ []
    → Holds id (update_all id ms o) (messages ms)
unfolding newest
update_all_lem id ms e o g fresh = update_all-Holds id ms [] e o g fresh

-- The token accounts of a session.
pub session_tokens : LiveSession → TokenCounts
session_tokens s = record {
  input_tokens = s.claude_input_tokens;
  output_tokens = s.claude_output_tokens;
  total_tokens = s.claude_total_tokens;
}

pub total_tokens : Totals → TokenCounts
total_tokens t = record {
  input_tokens = t.input_tokens;
  output_tokens = t.output_tokens;
  total_tokens = t.total_tokens;
}

-- What an event adds to an account: its terminal usage, if it has one.
pub charge : Option Usage → TokenCounts → TokenCounts
charge none t = t
charge (some u) t = record {
  input_tokens = add64 t.input_tokens u.input_tokens;
  output_tokens = add64 t.output_tokens u.output_tokens;
  total_tokens = add64 t.total_tokens u.total_tokens;
}

event-tokens :
    (m : AgentEvent) (s : LiveSession) → session_tokens (update_event m s) ≡ session_tokens s
unfolding update_event session_tokens
event-tokens m s = ground arith

message-tokens :
    (m : AgentEvent) (s : LiveSession) → session_tokens (update_message m s) ≡ session_tokens s
unfolding update_message session_tokens
message-tokens m s = ground arith

session_id-tokens :
    (m : AgentEvent) (s : LiveSession) → session_tokens (update_session_id m s) ≡ session_tokens s
unfolding update_session_id session_tokens
session_id-tokens m s = ground arith

turn-tokens :
    (m : AgentEvent) (s : LiveSession) → session_tokens (update_turn m s) ≡ session_tokens s
unfolding update_turn session_tokens
turn-tokens m s = ground arith

pid-tokens : (m : AgentEvent) (s : LiveSession) → session_tokens (update_pid m s) ≡ session_tokens s
unfolding update_pid session_tokens
pid-tokens m s = ground arith

usage-tokens :
    (m : AgentEvent) (s : LiveSession)
    → session_tokens (update_usage m s) ≡ charge m.usage (session_tokens s)
unfolding update_usage session_tokens charge
usage-tokens m s = elim (Option-cases m.usage) [
  | inl e ↦ rw (e, update_usage, charge) refl
  | inr (u, e) ↦ rw (e, update_usage, charge) refl
]

update_session-tokens :
    (m : AgentEvent) (s : LiveSession)
    → session_tokens (update_session m s) ≡ charge m.usage (session_tokens s)
unfolding update_session
update_session-tokens m s =
    rw (usage-tokens, pid-tokens, turn-tokens, session_id-tokens, message-tokens, event-tokens) refl

add_usage-tokens :
    (u : Option Usage) (t : Totals) → total_tokens (add_usage u t) ≡ charge u (total_tokens t)
unfolding add_usage total_tokens charge
add_usage-tokens none t = refl
add_usage-tokens (some u) t = refl

add_usage-seconds :
    (u : Option Usage) (t : Totals) → (add_usage u t).seconds_running ≡ t.seconds_running
unfolding add_usage
add_usage-seconds none t = refl
add_usage-seconds (some u) t = refl

-- An event for a running issue charges its terminal usage, and nothing else, both to that session and
-- to the global totals; per-step usage is charged to neither. The entries of all other issues stay
-- as they are.
pub on_agent_update_lem :
    (id j : Text) (m : AgentEvent) (e : RunningEntry) (o : Orchestrator)
    → get id o.running ≡ some e
    → text_eq id j ≡ false
    → let p = on_agent_update id m o in
      (get id p.running ≡ some (record e { session = update_session m e.session }))
      × (session_tokens (update_session m e.session) ≡ charge m.usage (session_tokens e.session))
      × (total_tokens p.claude_totals ≡ charge m.usage (total_tokens o.claude_totals))
      × (p.claude_totals.seconds_running ≡ o.claude_totals.seconds_running)
      × (get j p.running ≡ get j o.running)
unfolding on_agent_update
on_agent_update_lem id j m e o g h =
    rw (g, on_agent_update)
      (
        rw get-put (rw (text_eq_refl id) refl),
        update_session-tokens m e.session,
        add_usage-tokens m.usage o.claude_totals,
        add_usage-seconds m.usage o.claude_totals,
        rw get-put (rw h refl),
      )
