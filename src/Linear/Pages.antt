-- ===== src/Linear/Pages.antt =====
-- The pagination of internal/tracker/linear/linear.go against a server with numbered pages.
use my_symphony.Domain.{Issue}
use my_symphony.Linear.Normalize.{IssueNode, normalize_issue}
use my_symphony.Linear.Client.{
  fetch_issues_by_states, fetch_candidate_issues, candidate_issues, Api, Client, Query, Request,
  IssueConnection, Fetched, do_request, next_cursor, paginate_with, fetch_issue_states_by_ids,
  issue_states,
}
use my_symphony.Go.Utf8.{Text, is_blank}
use my_symphony.Base.{
  append_nil, sym, none, ◌≤◌, ◌≡◌, ◌∷◌, ◌+◌, ◌++◌, ℤ, ℕ, zero, true, suc, some, refl, ok, map,
  length, false, arith, ap, [], Option, List, Bool,
}

abbrev pub request_of : Query → ℤ → Option Text → Request
request_of q first after = record { query = q; first = first; after = after }

abbrev pub page_of : List IssueNode → Bool → Option Text → IssueConnection
page_of nodes has_next cursor = record {
  nodes = nodes;
  page_info = record { has_next_page = has_next; end_cursor = cursor };
}

-- From a cursor on, after some requests, the server answers with these pages, each but the last
-- with the cursor of the next.
pub data Serves (api : Api) (q : Query) (first : ℤ)
    : Option Text → List Request → List (List IssueNode) → Type 0 where
  last_page :
      (after : Option Text) (h : List Request) (nodes : List IssueNode) (cursor : Option Text)
      → do_request api h (request_of q first after) ≡ ok (page_of nodes false cursor)
      → Serves api q first after h (nodes ∷ [])
  next_page :
      (after : Option Text) (h : List Request) (nodes : List IssueNode) (cursor : Text)
      (pages : List (List IssueNode))
      → do_request api h (request_of q first after) ≡ ok (page_of nodes true (some cursor))
      → is_blank cursor ≡ false
      → Serves api q first (some cursor) (request_of q first after ∷ h) pages
      → Serves api q first after h (nodes ∷ pages)

-- The issues of the pages, in order.
abbrev pub issues_of : List (List IssueNode) → List Issue
issues_of [] = []
issues_of (nodes ∷ pages) = map normalize_issue nodes ++ issues_of pages

-- What is fetched from a server with these pages, after `n` requests.
pub record IsWhole (n : ℕ) (issues : List Issue) (fetched : Option Fetched) : Type 0 where
  pub requests : List Request
  pub answer : fetched ≡ some (requests, ok issues)
  pub count : length requests ≡ n

append_assoc : (xs ys zs : List Issue) → (xs ++ ys) ++ zs ≡ xs ++ (ys ++ zs)
append_assoc [] ys zs = refl
append_assoc (x ∷ xs) ys zs = ap (λ t. x ∷ t) (append_assoc xs ys zs)

module _ (api : Api) (q : Query) (first : ℤ) where
  paginate_with-IsWhole :
      (fuel : ℕ) (after : Option Text) (h : List Request) (pages : List (List IssueNode))
      (so_far : List Issue)
      → Serves api q first after h pages
      → length pages ≤ fuel
      → IsWhole
          (length h + length pages)
          (so_far ++ issues_of pages)
          (paginate_with fuel api q first after so_far h)
  unfolding paginate_with next_cursor
  paginate_with-IsWhole zero after h pages so_far (last_page _ _ nodes cursor e) hf =
      absurd (omega arith)
  paginate_with-IsWhole zero after h pages so_far (next_page _ _ nodes cursor rest e nb s) hf =
      absurd (omega arith)
  paginate_with-IsWhole (suc fuel) after h pages so_far (last_page _ _ nodes cursor e) hf =
      rw (paginate_with, e)
        record {
          requests = request_of q first after ∷ h;
          answer = rw (append_nil (map normalize_issue nodes)) refl;
          count = omega arith;
        }
  paginate_with-IsWhole (suc fuel) after h pages so_far (next_page _ _ nodes cursor rest e nb s)
        hf =
      let more = so_far ++ map normalize_issue nodes in
      let i =
        paginate_with-IsWhole fuel (some cursor) (request_of q first after ∷ h) rest more s
          (omega arith) in
      let assoc = append_assoc so_far (map normalize_issue nodes) (issues_of rest) in
      rw (paginate_with, e, nb, sym assoc)
        record { requests = i.requests; answer = i.answer; count = omega (arith, i.count) }

  -- From the first page on.
  from_start-IsWhole :
      (fuel : ℕ) (pages : List (List IssueNode)) (asked : Query)
      → asked ≡ q
      → Serves api q first none [] pages
      → length pages ≤ fuel
      → IsWhole (length pages) (issues_of pages) (paginate_with fuel api asked first none [] [])
  from_start-IsWhole fuel pages asked same serves enough =
      let i = paginate_with-IsWhole fuel none [] pages [] serves enough in
      rw same record { requests = i.requests; answer = i.answer; count = omega (arith, i.count) }

-- The three fetches of the client.
pub data Fetch : Type 0 where
  candidates : Fetch
  by_states : List Text → Fetch
  by_ids : List Text → Fetch

abbrev pub fetch : ℕ → Api → Client → Fetch → Option Fetched
fetch fuel api c candidates = fetch_candidate_issues fuel api c
fetch fuel api c (by_states states) = fetch_issues_by_states fuel api c states
fetch fuel api c (by_ids ids) = fetch_issue_states_by_ids fuel api c ids

-- What a fetch asks for, if it asks at all.
abbrev pub query_of : Client → Fetch → Option Query
query_of c candidates = some (
    candidate_issues c.project_slug
      (elim c.active_states [ [] ↦ none | s ∷ more ↦ some (s ∷ more) ]))
query_of c (by_states []) = none
query_of c (by_states (s ∷ states)) = some (candidate_issues c.project_slug (some (s ∷ states)))
query_of c (by_ids []) = none
query_of c (by_ids (id ∷ ids)) = some (issue_states (id ∷ ids))

-- From a server that answers the query of a fetch with some pages, each but the last with the
-- cursor of the next, the fetch returns the normalized issues of all pages in their order, with one
-- request for each page; as many rounds as there are pages are enough.
pub fetch-IsWhole :
    (fuel : ℕ) (api : Api) (c : Client) (f : Fetch) (q : Query) (pages : List (List IssueNode))
    → query_of c f ≡ some q
    → Serves api q c.page_size none [] pages
    → length pages ≤ fuel
    → IsWhole (length pages) (issues_of pages) (fetch fuel api c f)
unfolding fetch_candidate_issues fetch_issues_by_states fetch_issue_states_by_ids
fetch-IsWhole fuel api c candidates q pages is_q serves enough =
    from_start-IsWhole api q c.page_size fuel pages
      (candidate_issues c.project_slug
        (elim c.active_states [ [] ↦ none | s ∷ more ↦ some (s ∷ more) ]))
      (ground arith) serves enough
fetch-IsWhole fuel api c (by_states []) q pages is_q serves enough = absurd (ground arith)
fetch-IsWhole fuel api c (by_states (s ∷ states)) q pages is_q serves enough =
    from_start-IsWhole api q c.page_size fuel pages
      (candidate_issues c.project_slug (some (s ∷ states))) (ground arith) serves enough
fetch-IsWhole fuel api c (by_ids []) q pages is_q serves enough = absurd (ground arith)
fetch-IsWhole fuel api c (by_ids (id ∷ ids)) q pages is_q serves enough =
    from_start-IsWhole api q c.page_size fuel pages (issue_states (id ∷ ids)) (ground arith) serves
      enough
