-- ===== src/Server/Tracked.antt =====
-- The replies of internal/httpserver against the state of the orchestrator.
use my_symphony.Orchestrator.Snapshots.{
  build_snapshot, running_rows, running_row, retry_rows, retry_row,
}
use my_symphony.Base.{
  ◌&&◌, Result-cases, Bool-cases, ◌≤◌, ◌∙◌, ◌↔◌, ◌++◌, ℕ, true, ok, length, inr, inl, false,
  Option-cases, ◌≡◌, ◌∷◌, some, refl, none, if◌then◌else◌, arith, any, [], Option, List, Bool,
}
use my_symphony.Server.Detail.{
  build_issue_detail, running_detail, retrying_detail, find_running, find_retrying, IssueDetail,
}
use my_symphony.Orchestrator.State.{RunningEntry, Orchestrator}
use my_symphony.Domain.{RetryEntry}
use my_symphony.Domain.Snapshot.{RunningRow, RetryRow}
use my_symphony.Go.Utf8.{ascii, text_eq_iff, text_eq, Text}
use my_symphony.Go.Maps.{Map}
use my_symphony.Go.Sort.{any-slice_stable}
use my_symphony.Go.Strings.{trim_prefix, has_prefix}
use my_symphony.Orchestrator.Env.{Env}
use my_symphony.Server.{
  write_json, write_error, Reply, handle_state, handle_refresh, handle_issue_detail, handle_api,
  detail_of, detail_body, asks_refresh, Provider,
}

-- Whether a worker runs, or a retry waits, for an issue with an identifier.
abbrev pub runs_for : Text → Orchestrator → Bool
runs_for identifier o = any (λ x. text_eq x.1.identifier identifier) o.running

abbrev pub waits_for : Text → Orchestrator → Bool
waits_for identifier o = any (λ x. text_eq x.1.identifier identifier) o.retry_attempts

-- What a detail says of the issue that it is about.
abbrev pub heading : Option IssueDetail → Option (Text × Text)
heading none = none
heading (some detail) = some (detail.issue_identifier, detail.status)

find_running-heading :
    (rows : List RunningRow) (identifier : Text)
    → heading (find_running rows identifier) ≡ (
        if any (λ r. text_eq r.issue_identifier identifier) rows
        then some (identifier, ascii "running")
        else none)
unfolding find_running running_detail
find_running-heading [] identifier = refl
find_running-heading (row ∷ rest) identifier =
    ground
      (arith, text_eq_iff row.issue_identifier identifier, find_running-heading rest identifier)

find_retrying-heading :
    (rows : List RetryRow) (identifier : Text)
    → heading (find_retrying rows identifier) ≡ (
        if any (λ r. text_eq r.issue_identifier identifier) rows
        then some (identifier, ascii "retrying")
        else none)
unfolding find_retrying retrying_detail
find_retrying-heading [] identifier = refl
find_retrying-heading (row ∷ rest) identifier =
    ground
      (arith, text_eq_iff row.issue_identifier identifier, find_retrying-heading rest identifier)

any-running_rows :
    (m : Map RunningEntry) (identifier : Text)
    → any (λ r. text_eq r.issue_identifier identifier) (running_rows m)
      ≡ any (λ x. text_eq x.1.identifier identifier) m
unfolding running_rows running_row
any-running_rows [] identifier = refl
any-running_rows ((id, e) ∷ m) identifier = rw (any-running_rows m identifier) refl

any-retry_rows :
    (m : Map RetryEntry) (identifier : Text)
    → any (λ r. text_eq r.issue_identifier identifier) (retry_rows m)
      ≡ any (λ x. text_eq x.1.identifier identifier) m
unfolding retry_rows retry_row
any-retry_rows [] identifier = refl
any-retry_rows ((id, e) ∷ m) identifier = rw (any-retry_rows m identifier) refl

build_issue_detail-heading :
    (env : Env) (o : Orchestrator) (identifier : Text)
    → heading (build_issue_detail (build_snapshot env o) identifier) ≡ (
        if runs_for identifier o
        then some (identifier, ascii "running")
        else if waits_for identifier o
        then some (identifier, ascii "retrying")
        else none)
unfolding build_issue_detail build_snapshot
build_issue_detail-heading env o identifier =
    let snap = build_snapshot env o in
    let runs : any (λ r. text_eq r.issue_identifier identifier) snap.running
        ≡ runs_for identifier o =
      any-slice_stable _ _ (running_rows o.running) ∙ any-running_rows o.running identifier in
    let waits : any (λ r. text_eq r.issue_identifier identifier) snap.retrying
        ≡ waits_for identifier o =
      any-slice_stable _ _ (retry_rows o.retry_attempts)
      ∙ any-retry_rows o.retry_attempts identifier in
    let first = find_running-heading snap.running identifier in
    let second = find_retrying-heading snap.retrying identifier in
    elim (Option-cases (find_running snap.running identifier)) [
      | inl e ↦ rw (e, build_issue_detail) (ground (arith, e, first, second, runs, waits))
      | inr (d, e) ↦ rw (e, build_issue_detail) (ground (arith, e, first, runs))
    ]

-- The status of a reply, and the heading of the detail in its body.
abbrev pub summary : Reply → ℕ × Option (Text × Text)
summary reply = (reply.status, elim reply.body [ detail_body d ↦ heading (some d) | _ ↦ none ])

-- What a request for the detail of an issue is answered.
abbrev pub standing : Text → Orchestrator → ℕ × Option (Text × Text)
standing identifier o =
    if runs_for identifier o
    then (200, some (identifier, ascii "running"))
    else if waits_for identifier o
    then (200, some (identifier, ascii "retrying"))
    else (404, none)

detail_of-standing :
    (p : Provider) (env : Env) (o : Orchestrator) (identifier : Text)
    → p.snapshot ≡ ok (build_snapshot env o)
    → summary (detail_of p identifier) ≡ standing identifier o
unfolding detail_of
detail_of-standing p env o identifier e =
    let head = build_issue_detail-heading env o identifier in
    elim (Option-cases (build_issue_detail (build_snapshot env o) identifier)) [
      | inl q ↦ rw (e, detail_of, q) (ground (arith, head, q))
      | inr (d, q) ↦ rw (e, detail_of, q) (ground (arith, head, q))
    ]

-- Where the provider gives a snapshot of the orchestrator, a GET of an issue whose identifier is not
-- empty and neither "state" nor "refresh" finds it exactly if a worker runs or a retry waits for the
-- identifier, and says which, the worker first; else it is answered with the status 404.
pub handle_api-standing :
    (p : Provider) (env : Env) (o : Orchestrator) (identifier : Text)
    → p.snapshot ≡ ok (build_snapshot env o)
    → text_eq identifier (ascii "state") ≡ false
    → text_eq identifier (ascii "refresh") ≡ false
    → text_eq identifier [] ≡ false
    → summary (handle_api p (ascii "GET") (ascii "/api/v1/" ++ identifier)) ≡ standing identifier o
unfolding handle_api handle_issue_detail trim_prefix has_prefix text_eq
handle_api-standing p env o identifier e not_state not_refresh not_blank =
    rw (not_state, not_refresh, not_blank) (detail_of-standing p env o identifier e)

-- The method that a resource of the API is for.
abbrev pub method_of : Text → Text
method_of rest = if text_eq rest (ascii "refresh") then ascii "POST" else ascii "GET"

-- What the calls and the status of a reply say: whether the method fits, and whether the request is
-- one to refresh.
abbrev pub Fits : Bool → Bool → Reply → Type 0
Fits allowed refreshes reply =
    (length reply.calls ≤ 1)
    × ((reply.status ≡ 405) ↔ (allowed ≡ false))
    × ((reply.calls ≡ asks_refresh ∷ []) ↔ (refreshes ≡ true))
    × (reply.status ≡ 405 → reply.calls ≡ [])

detail_of-Fits : (p : Provider) (identifier : Text) → Fits true false (detail_of p identifier)
unfolding detail_of
detail_of-Fits p identifier = elim (Result-cases p.snapshot) [
  | inr (e, q) ↦ rw (q, detail_of) (ground arith)
  | inl (snap, q) ↦ elim (Option-cases (build_issue_detail snap identifier)) [
    | inl r ↦ rw (q, detail_of, r) (ground arith)
    | inr (d, r) ↦ rw (q, detail_of, r) (ground arith)
  ]
]

handle_issue_detail-Fits :
    (p : Provider) (method identifier : Text)
    → Fits (text_eq method (ascii "GET")) false (handle_issue_detail p method identifier)
unfolding handle_issue_detail write_error write_json
handle_issue_detail-Fits p method identifier = ground (arith, detail_of-Fits p identifier)

handle_state-Fits :
    (p : Provider) (method : Text)
    → Fits (text_eq method (ascii "GET")) false (handle_state p method)
unfolding handle_state write_error write_json
handle_state-Fits p method = elim (Result-cases p.snapshot) [
  | inr (e, q) ↦ rw (q, handle_state) (ground arith)
  | inl (snap, q) ↦ rw (q, handle_state) (ground arith)
]

handle_refresh-Fits :
    (p : Provider) (method : Text)
    → Fits (text_eq method (ascii "POST")) (text_eq method (ascii "POST")) (handle_refresh p method)
unfolding handle_refresh write_error write_json
handle_refresh-Fits p method = ground arith

-- A request of the API makes one call of the provider at most, and none where its method is refused,
-- which is exactly where the resource is for another one; a refresh is asked for exactly by a POST
-- to the resource of refreshes.
pub handle_api-calls :
    (p : Provider) (method path : Text)
    → let rest = trim_prefix path (ascii "/api/v1/") in
      Fits
        (text_eq method (method_of rest))
        (text_eq rest (ascii "refresh") && text_eq method (ascii "POST"))
        (handle_api p method path)
unfolding handle_api
handle_api-calls p method path =
    let rest = trim_prefix path (ascii "/api/v1/") in
    elim (Bool-cases (text_eq rest (ascii "state"))) [
      | inl s ↦
          let same : text_eq rest (ascii "refresh") ≡ false =
            ground (arith, text_eq_iff rest (ascii "state"), text_eq_iff rest (ascii "refresh")) in
          rw (s, same) (handle_state-Fits p method)
      | inr s ↦ elim (Bool-cases (text_eq rest (ascii "refresh"))) [
        | inl r ↦ rw (s, r) (handle_refresh-Fits p method)
        | inr r ↦ rw (s, r) (handle_issue_detail-Fits p method rest)
      ]
    ]
