-- ===== src/Witnesses/Tracker.antt =====
-- The theorem on the pagination at a server with two pages.
use my_symphony.Linear.Normalize.{IssueNode}
use my_symphony.Linear.Client.{
  Api, Client, IssueConnection, Reply, reply, issue_states, Query, do_request, of_response,
}
use my_symphony.Linear.Pages.{
  Serves, next_page, last_page, IsWhole, Fetch, by_ids, fetch, fetch-IsWhole, issues_of, page_of,
  request_of,
}
use my_symphony.Go.Utf8.{Text, ascii, is_blank}
use my_symphony.Go.Value.{float}
use my_symphony.Base.{◌∷◌, ◌++◌, true, some, refl, pos, ok, none, length, false, arith, [], List}

node : Text → IssueNode
node id = record {
  id = id;
  identifier = ascii "AB-" ++ id;
  title = ascii "title";
  description = none;
  priority = float (pos 2) 0;
  branch_name = none;
  url = none;
  created_at = none;
  updated_at = none;
  state = some record { name = ascii "Todo"; type = ascii "unstarted" };
  assignee = none;
  labels = some (ascii " Bug " ∷ ascii " " ∷ []);
  inverse = none;
}

answer_page : IssueConnection → Reply
answer_page page = reply 200 (ok record { data_issues = some page; errors = [] })

two_pages : Api
two_pages = record {
  post = λ h request. elim h [
    | [] ↦ answer_page (page_of (node (ascii "1") ∷ []) true (some (ascii "next")))
    | _ ∷ _ ↦ answer_page (page_of (node (ascii "2") ∷ []) false none)
  ];
}

client : Client
client = record {
  endpoint = ascii "https://api.linear.app/graphql";
  api_key = ascii "key";
  project_slug = ascii "slug";
  active_states = [];
  page_size = pos 1;
}

both : Fetch
both = by_ids (ascii "1" ∷ ascii "2" ∷ [])

asked : Query
asked = issue_states (ascii "1" ∷ ascii "2" ∷ [])

pages : List (List IssueNode)
pages = (node (ascii "1") ∷ []) ∷ (node (ascii "2") ∷ []) ∷ []

served : Serves two_pages asked client.page_size none [] pages
unfolding two_pages answer_page client pages do_request of_response is_blank
served =
    next_page none [] (node (ascii "1") ∷ []) (ascii "next") ((node (ascii "2") ∷ []) ∷ []) refl
      refl
      (last_page (some (ascii "next")) (request_of asked (pos 1) none ∷ []) (node (ascii "2") ∷ [])
        none refl)

fetch-IsWhole_example : IsWhole (length pages) (issues_of pages) (fetch 2 two_pages client both)
unfolding both asked pages
fetch-IsWhole_example = fetch-IsWhole 2 two_pages client both asked pages refl served (omega arith)
