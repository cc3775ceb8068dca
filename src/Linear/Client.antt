-- ===== src/Linear/Client.antt =====
-- internal/tracker/linear/linear.go: the requests and the pagination.
-- The HTTP exchange, and the decoding of its body, are answers, which may depend on the requests
-- before, newest first. The requests of a fetch are part of its result.
use my_symphony.Domain.{Issue}
use my_symphony.Linear.Normalize.{IssueNode, normalize_issue}
use my_symphony.Go.Utf8.{Text, ascii, is_blank}
use my_symphony.Base.{
  ◌∷◌, ◌==◌, ◌++◌, ℤ, ℕ, zero, suc, some, pos, ok, not, none, map, leb_ℤ, if◌then◌else◌, err, [],
  Result, Option, List, Bool,
}

pub record Options : Type 0 where
  pub endpoint : Text
  pub api_key : Text
  pub project_slug : Text
  pub active_states : List Text
  pub page_size : ℤ

pub record Client : Type 0 where
  pub endpoint : Text
  pub api_key : Text
  pub project_slug : Text
  pub active_states : List Text
  pub page_size : ℤ

pub data TrackerError : Type 0 where
  missing_tracker_api_key : TrackerError
  missing_tracker_project_slug : TrackerError
  linear_api_request : Text → TrackerError
  linear_api_status : ℕ → TrackerError
  linear_graphql_errors : Text → TrackerError
  linear_unknown_payload : Text → TrackerError
  linear_missing_end_cursor : TrackerError

-- The filter of a project, with the states if there is such a condition, or of identifiers.
pub data Query : Type 0 where
  candidate_issues : (project : Text) (states : Option (List Text)) → Query
  issue_states : (ids : List Text) → Query

pub record Request : Type 0 where
  pub query : Query
  pub first : ℤ
  pub after : Option Text

pub record PageInfo : Type 0 where
  pub has_next_page : Bool
  pub end_cursor : Option Text

pub record IssueConnection : Type 0 where
  pub nodes : List IssueNode
  pub page_info : PageInfo

-- `data_issues` is `none` where the response has no data.
pub record GraphqlResponse : Type 0 where
  pub data_issues : Option IssueConnection
  pub errors : List Text

-- A transport error, a status with the decoded body, or what the decoder says of it.
pub data Reply : Type 0 where
  no_reply : Text → Reply
  reply : ℕ → Result Text GraphqlResponse → Reply

pub record Api : Type 0 where
  pub post : List Request → Request → Reply

-- New.
unfoldable pub new_client : Options → Result TrackerError Client
unfolding is_blank
new_client opts =
    if is_blank opts.api_key
    then err missing_tracker_api_key
    else if is_blank opts.project_slug
    then err missing_tracker_project_slug
    else ok record {
      endpoint =
          if is_blank opts.endpoint then ascii "https://api.linear.app/graphql" else opts.endpoint;
      api_key = opts.api_key;
      project_slug = opts.project_slug;
      active_states = opts.active_states;
      page_size = if leb_ℤ opts.page_size (pos 0) then pos 50 else opts.page_size;
    }

unfoldable pub of_response : GraphqlResponse → Result TrackerError IssueConnection
of_response parsed = elim parsed.errors [
  | message ∷ _ ↦ err (linear_graphql_errors message)
  | [] ↦ elim parsed.data_issues [
    | none ↦ err (linear_unknown_payload (ascii "response has no data"))
    | some issues ↦ ok issues
  ]
]

-- do.
unfoldable pub do_request : Api → List Request → Request → Result TrackerError IssueConnection
do_request api h request = elim (api.post h request) [
  | no_reply e ↦ err (linear_api_request e)
  | reply status body ↦
      if not (status == 200)
      then err (linear_api_status status)
      else elim body [ err e ↦ err (linear_unknown_payload e) | ok parsed ↦ of_response parsed ]
]

-- A cursor that leads on.
unfoldable pub next_cursor : PageInfo → Option Text
next_cursor info = elim info.end_cursor [
  | none ↦ none
  | some cursor ↦ if is_blank cursor then none else some cursor
]

abbrev pub Fetched : Type 0
Fetched = List Request × Result TrackerError (List Issue)

-- paginateWith, from a cursor on with the issues so far; `none` where the fuel does not suffice.
unfoldable pub paginate_with :
    ℕ → Api → Query → ℤ → Option Text → List Issue → List Request → Option Fetched
paginate_with zero api query first after so_far h = none
paginate_with (suc fuel) api query first after so_far h =
    let request : Request = record { query = query; first = first; after = after } in
    elim (do_request api h request) [
      | err e ↦ some (request ∷ h, err e)
      | ok page ↦
          let more = so_far ++ map (normalize_issue) page.nodes in
          if not page.page_info.has_next_page
          then some (request ∷ h, ok more)
          else elim (next_cursor page.page_info) [
            | none ↦ some (request ∷ h, err linear_missing_end_cursor)
            | some cursor ↦ paginate_with fuel api query first (some cursor) more (request ∷ h)
          ]
    ]

module _ (fuel : ℕ) (api : Api) (c : Client) where
  -- FetchCandidateIssues.
  unfoldable pub fetch_candidate_issues : Option Fetched
  fetch_candidate_issues =
      let states : Option (List Text) = elim c.active_states [
        | [] ↦ none
        | s ∷ more ↦ some (s ∷ more)
      ] in
      paginate_with fuel api (candidate_issues c.project_slug states) c.page_size none [] []

  -- FetchIssuesByStates.
  unfoldable pub fetch_issues_by_states : List Text → Option Fetched
  fetch_issues_by_states [] = some ([], ok [])
  fetch_issues_by_states (s ∷ states) =
      paginate_with fuel api (candidate_issues c.project_slug (some (s ∷ states))) c.page_size none
        [] []

  -- FetchIssueStatesByIDs.
  unfoldable pub fetch_issue_states_by_ids : List Text → Option Fetched
  fetch_issue_states_by_ids [] = some ([], ok [])
  fetch_issue_states_by_ids (id ∷ ids) =
      paginate_with fuel api (issue_states (id ∷ ids)) c.page_size none [] []
