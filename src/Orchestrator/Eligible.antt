-- ===== src/Orchestrator/Eligible.antt =====
-- The candidate selection rules of internal/orchestrator/reconcile.go.
use my_symphony.Base.{Bool, true, false, not, ◌||◌, if◌then◌else◌, List, [], ◌∷◌, none, some}
use my_symphony.Go.Utf8.{Text, ascii, text_eq, is_blank}
use my_symphony.Go.Strings.{to_lower, trim_space, equal_fold}
use my_symphony.Domain.{Issue, BlockerRef, normalize_state}
use my_symphony.Config.{Config}

-- containsNormalized.
unfoldable pub contains_normalized : List Text → Text → Bool
contains_normalized [] state = false
contains_normalized (s ∷ rest) state =
    if text_eq (normalize_state s) (normalize_state state)
    then true
    else contains_normalized rest state

-- isActiveState.
unfoldable pub is_active_state : Config → Text → Bool
is_active_state c state = contains_normalized c.tracker.active_states state

-- isTerminalState.
unfoldable pub is_terminal_state : Config → Text → Bool
is_terminal_state c state = contains_normalized c.tracker.terminal_states state

-- isTerminalBlocker: a blocker with no known state is not terminal.
unfoldable pub is_terminal_blocker : Config → BlockerRef → Bool
is_terminal_blocker c b = elim b.state [ none ↦ false | some state ↦ is_terminal_state c state ]

-- matchesAssignee.
unfoldable pub matches_assignee : Config → Issue → Bool
matches_assignee c issue =
    let want = trim_space c.tracker.assignee in
    if is_blank want
    then true
    else elim issue.assignee [ none ↦ false | some a ↦ equal_fold (trim_space a) want ]

-- `have[norm]` of hasRequiredLabels.
unfoldable pub has_label : List Text → Text → Bool
has_label [] norm = false
has_label (l ∷ rest) norm =
    if text_eq (to_lower (trim_space l)) norm then true else has_label rest norm

-- The loop of hasRequiredLabels.
unfoldable pub has_all_labels : List Text → List Text → Bool
has_all_labels labels [] = true
has_all_labels labels (req ∷ rest) =
    let norm = to_lower (trim_space req) in
    let later = has_all_labels labels rest in
    if is_blank norm then false else if not (has_label labels norm) then false else later

-- hasRequiredLabels.
unfoldable pub has_required_labels : Config → Issue → Bool
has_required_labels c issue = has_all_labels issue.labels c.tracker.required_labels

-- The blocker loop of isEligible.
unfoldable pub all_blockers_terminal : Config → List BlockerRef → Bool
all_blockers_terminal c [] = true
all_blockers_terminal c (b ∷ rest) =
    let later = all_blockers_terminal c rest in
    if not (is_terminal_blocker c b) then false else later

-- isEligible.
unfoldable pub is_eligible : Config → Issue → Bool
is_eligible c issue =
    if is_blank issue.id
      || is_blank issue.identifier
      || is_blank issue.title
      || is_blank issue.state
    then false
    else if not (is_active_state c issue.state) || is_terminal_state c issue.state
    then false
    else if not (matches_assignee c issue)
    then false
    else if not (has_required_labels c issue)
    then false
    else if text_eq (normalize_state issue.state) (ascii "todo")
    then all_blockers_terminal c issue.blocked_by
    else true
