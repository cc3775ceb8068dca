-- ===== src/Linear/Normalize.antt =====
-- internal/tracker/linear/normalize.go: a decoded issue node as an issue of the domain.
-- Of a related issue only what normalizeIssue reads is kept.
use my_symphony.Domain.{Issue, BlockerRef}
use my_symphony.Config.Coerce.{int_of_float}
use my_symphony.Go.Utf8.{Text, ascii, text_eq, is_blank}
use my_symphony.Go.Strings.{trim_space, to_lower}
use my_symphony.Go.Value.{Value, float}
use my_symphony.Base.{◌∷◌, ℤ, some, not, none, if◌then◌else◌, [], Option, List, Bool}
use my_symphony.Go.Time.{parse_rfc3339}

pub record StateNode : Type 0 where
  pub name : Text
  pub type : Text

pub record RelatedIssue : Type 0 where
  pub id : Text
  pub identifier : Text
  pub state : Option StateNode

pub record RelationNode : Type 0 where
  pub type : Text
  pub related_issue : Option RelatedIssue

-- `labels` holds the names; `none` is a nil pointer, and an absent priority is `null`.
pub record IssueNode : Type 0 where
  pub id : Text
  pub identifier : Text
  pub title : Text
  pub description : Option Text
  pub priority : Value
  pub branch_name : Option Text
  pub url : Option Text
  pub created_at : Option Text
  pub updated_at : Option Text
  pub state : Option StateNode
  pub assignee : Option Text
  pub labels : Option (List Text)
  pub inverse : Option (List RelationNode)

-- A text that is not empty.
unfoldable pub non_empty : Text → Option Text
unfolding is_blank
non_empty t = if is_blank t then none else some t

-- normalizePriority, on the decoded number.
unfoldable pub normalize_priority : Value → Option ℤ
unfolding int_of_float
normalize_priority (float z k) = int_of_float z k
normalize_priority _ = none

-- parseTime.
unfoldable pub parse_time : Option Text → Option ℤ
unfolding is_blank
parse_time none = none
parse_time (some s) = if is_blank s then none else parse_rfc3339 s

unfoldable pub normalize_labels : List Text → List Text
normalize_labels [] = []
normalize_labels (l ∷ ls) =
    let name = to_lower (trim_space l) in
    let rest = normalize_labels ls in if is_blank name then rest else name ∷ rest

-- The reference to a blocker.
unfoldable pub blocker_of : Option RelatedIssue → BlockerRef
unfolding non_empty
blocker_of none = record { id = none; identifier = none; state = none }
blocker_of (some ri) = record {
  id = non_empty ri.id;
  identifier = non_empty ri.identifier;
  state = elim ri.state [ none ↦ none | some st ↦ non_empty st.name ];
}

unfoldable pub is_blocks : RelationNode → Bool
is_blocks rel = text_eq (to_lower (trim_space rel.type)) (ascii "blocks")

unfoldable pub blockers : List RelationNode → List BlockerRef
blockers [] = []
blockers (rel ∷ rels) =
    let rest = blockers rels in
    if not (is_blocks rel) then rest else blocker_of rel.related_issue ∷ rest

-- normalizeIssue.
unfoldable pub normalize_issue : IssueNode → Issue
normalize_issue n = record {
  id = n.id;
  identifier = n.identifier;
  title = n.title;
  description = n.description;
  priority = normalize_priority n.priority;
  state = elim n.state [ none ↦ [] | some st ↦ st.name ];
  branch_name = n.branch_name;
  url = n.url;
  labels = elim n.labels [ none ↦ [] | some ls ↦ normalize_labels ls ];
  blocked_by = elim n.inverse [ none ↦ [] | some rels ↦ blockers rels ];
  created_at = parse_time n.created_at;
  updated_at = parse_time n.updated_at;
  assignee = elim n.assignee [ none ↦ none | some name ↦ non_empty name ];
}
