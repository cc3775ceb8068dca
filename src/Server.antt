-- ===== src/Server.antt =====
-- The handlers of internal/httpserver: server.go, and handleRoot of dashboard.go.
-- A reply keeps the calls of the provider that the handler made. The text of an error is told by the
-- constructor that stands for it, and the dashboard of a snapshot by the snapshot.
pub mod Detail
pub mod Tracked
use my_symphony.Base.{
  ◌==◌, ◌/◌, ℕ, ◌∷◌, [], ◌++◌, List, Bool, not, true, false, if◌then◌else◌, Option, none, some,
  Result, ok, err,
}
use my_symphony.Go.Utf8.{Text, ascii, text_eq}
use my_symphony.Go.Strings.{trim_prefix, has_prefix}
use my_symphony.Domain.Snapshot.{Snapshot}
use my_symphony.Server.Detail.{IssueDetail, build_issue_detail}
use my_symphony.LinearGraphql.Document.{operations}
use my_symphony.Orchestrator.Queue.{snapshot_unavailable}

-- What a request is answered: the provider's Snapshot and RequestRefresh, and the clock.
pub record Provider : Type 0 where
  pub snapshot : Result Text Snapshot
  pub request_refresh : Bool
  pub now : ℕ

pub data Call : Type 0 where
  asks_snapshot : Call
  asks_refresh : Call

pub data Problem : Type 0 where
  use_get : Problem
  use_post : Problem
  no_identifier : Problem
  no_resource : Problem
  not_tracked : (identifier : Text) → Problem
  unavailable : (message : Text) → Problem

pub data Body : Type 0 where
  state_body : Snapshot → Body
  refresh_body : (queued coalesced : Bool) (requested_at : ℕ) (operations : List Text) → Body
  detail_body : IssueDetail → Body
  error_body : (code : Text) (message : Problem) → Body
  dashboard : Snapshot → Body
  html : Text → Body

pub record Reply : Type 0 where
  pub status : ℕ
  pub body : Body
  pub calls : List Call

-- writeJSON.
unfoldable pub write_json : ℕ → Body → List Call → Reply
write_json status body calls = record { status = status; body = body; calls = calls }

-- writeError.
unfoldable pub write_error : ℕ → Text → Problem → List Call → Reply
unfolding write_json
write_error status code message calls = write_json status (error_body code message) calls

-- handleState.
unfoldable pub handle_state : Provider → Text → Reply
unfolding write_error write_json
handle_state p method =
    if not (text_eq method (ascii "GET"))
    then write_error 405 (ascii "method_not_allowed") use_get []
    else elim p.snapshot [
      | err e ↦ write_error 503 (ascii "snapshot_unavailable") (unavailable e) (asks_snapshot ∷ [])
      | ok snap ↦ write_json 200 (state_body snap) (asks_snapshot ∷ [])
    ]

-- handleRefresh.
unfoldable pub handle_refresh : Provider → Text → Reply
unfolding write_error write_json
handle_refresh p method =
    if not (text_eq method (ascii "POST"))
    then write_error 405 (ascii "method_not_allowed") use_post []
    else write_json 202
        (refresh_body p.request_refresh (not p.request_refresh) p.now
          (ascii "poll" ∷ ascii "reconcile" ∷ []))
        (asks_refresh ∷ [])

-- handleIssueDetail, past its checks of the request.
unfoldable pub detail_of : Provider → Text → Reply
unfolding write_error write_json
detail_of p identifier = elim p.snapshot [
  | err e ↦ write_error 503 (ascii "snapshot_unavailable") (unavailable e) (asks_snapshot ∷ [])
  | ok snap ↦ elim (build_issue_detail snap identifier) [
    | none ↦ write_error 404 (ascii "issue_not_found") (not_tracked identifier) (asks_snapshot ∷ [])
    | some detail ↦ write_json 200 (detail_body detail) (asks_snapshot ∷ [])
  ]
]

-- handleIssueDetail.
unfoldable pub handle_issue_detail : Provider → Text → Text → Reply
unfolding write_error
handle_issue_detail p method identifier =
    if not (text_eq method (ascii "GET"))
    then write_error 405 (ascii "method_not_allowed") use_get []
    else if text_eq identifier []
    then write_error 404 (ascii "issue_not_found") no_identifier []
    else detail_of p identifier

-- handleAPI.
unfoldable pub handle_api : Provider → Text → Text → Reply
handle_api p method path =
    let rest = trim_prefix path (ascii "/api/v1/") in
    if text_eq rest (ascii "state")
    then handle_state p method
    else if text_eq rest (ascii "refresh")
    then handle_refresh p method
    else handle_issue_detail p method rest

-- The replacement of one byte by template.HTMLEscapeString.
unfoldable pub escape_byte : ℕ → Text
escape_byte b =
    if b == 0
    then 0xef ∷ 0xbf ∷ 0xbd ∷ []
    else if b == 34
    then ascii "&#34;"
    else if b == 39
    then ascii "&#39;"
    else if b == 38
    then ascii "&amp;"
    else if b == 60
    then ascii "&lt;"
    else if b == 62
    then ascii "&gt;"
    else b ∷ []

-- template.HTMLEscapeString.
unfoldable pub html_escape : Text → Text
unfolding escape_byte
html_escape [] = []
html_escape (b ∷ s) = escape_byte b ++ html_escape s

-- handleRoot.
unfoldable pub handle_root : Provider → Text → Text → Reply
unfolding write_error html_escape
handle_root p method path =
    if not (text_eq path (ascii "/"))
    then write_error 404 (ascii "not_found") no_resource []
    else if not (text_eq method (ascii "GET"))
    then write_error 405 (ascii "method_not_allowed") use_get []
    else elim p.snapshot [
      | err e ↦ record {
        status = 503;
        body =
            html (
              ascii "<h1>Symphony</h1><p>snapshot unavailable: "
              ++ (html_escape e ++ ascii "</p>"));
        calls = asks_snapshot ∷ [];
      }
      | ok snap ↦ record { status = 200; body = dashboard snap; calls = asks_snapshot ∷ [] }
    ]
