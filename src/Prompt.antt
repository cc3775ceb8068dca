-- ===== src/Prompt.antt =====
-- internal/prompt: the strict check of strict.go and the bindings of prompt.go. The Liquid engine is
-- an argument.
pub mod Scan
pub mod Roots
pub mod Document
pub mod Checked
pub mod Printed
pub mod Strict
use my_symphony.Prompt.Scan.{find_all, loop_var, assign_var, capture_var, block}
use my_symphony.Prompt.Roots.{has_word, variable_roots}
use my_symphony.Go.Utf8.{is_blank, Text, ascii}
use my_symphony.Base.{
  ◌∷◌, ◌++◌, ◌%◌, ℤ, true, some, ok, not, none, if◌then◌else◌, err, [], Result, Option, List, Bool,
}
use my_symphony.Go.Value.{object, int, cons, arr, field, end, null, nil, str, Values, Value, Fields}
use my_symphony.Go.Time.{format_rfc3339}
use my_symphony.Domain.{Issue, BlockerRef}
use my_symphony.Go.Strings.{trim_space, string_fields}

abbrev pub default_prompt : Text
default_prompt = ascii "You are working on an issue from Linear."

-- Error, without the error that it wraps.
pub record PromptError : Type 0 where
  pub code : Text
  pub msg : Text

abbrev pub template_parse_error : Text
template_parse_error = ascii "template_parse_error"

abbrev pub template_render_error : Text
template_render_error = ascii "template_render_error"

-- derefString and derefInt.
unfoldable pub deref_string : Option Text → Value
deref_string none = null
deref_string (some s) = str s

unfoldable pub deref_int : Option ℤ → Value
deref_int none = null
deref_int (some i) = int i

unfoldable pub deref_time : Option ℤ → Value
unfolding format_rfc3339
deref_time none = null
deref_time (some t) = str (format_rfc3339 t)

unfoldable pub blocker_values : List BlockerRef → Values
unfolding deref_string
blocker_values [] = nil
blocker_values (b ∷ rest) =
    cons
      (object (
        field (ascii "id") (deref_string b.id) (
          field (ascii "identifier") (deref_string b.identifier)
            (field (ascii "state") (deref_string b.state) end))))
      (blocker_values rest)

unfoldable pub label_values : List Text → Values
label_values [] = nil
label_values (l ∷ rest) = cons (str l) (label_values rest)

unfoldable pub fields_of : List (Text × Value) → Fields
fields_of [] = end
fields_of ((k, v) ∷ rest) = field k v (fields_of rest)

-- buildBindings.
unfoldable pub build_bindings : Issue → Option ℤ → Fields
unfolding fields_of deref_string deref_int deref_time blocker_values label_values
build_bindings issue attempt =
    let issue_map =
      (ascii "id", str issue.id)
      ∷ (ascii "identifier", str issue.identifier)
      ∷ (ascii "title", str issue.title)
      ∷ (ascii "description", deref_string issue.description)
      ∷ (ascii "priority", deref_int issue.priority)
      ∷ (ascii "state", str issue.state)
      ∷ (ascii "branch_name", deref_string issue.branch_name)
      ∷ (ascii "url", deref_string issue.url)
      ∷ (ascii "labels", arr (label_values issue.labels))
      ∷ (ascii "blocked_by", arr (blocker_values issue.blocked_by))
      ∷ (ascii "assignee", deref_string issue.assignee)
      ∷ (ascii "created_at", deref_time issue.created_at)
      ∷ (ascii "updated_at", deref_time issue.updated_at)
      ∷ [] in
    field (ascii "issue") (object (fields_of issue_map))
      (field (ascii "attempt") (deref_int attempt) end)

-- The tags whose bodies are no expressions.
abbrev pub non_expr_words : List Text
non_expr_words =
    ascii "endif"
    ∷ ascii "endfor"
    ∷ ascii "endunless"
    ∷ ascii "endcase"
    ∷ ascii "endcapture"
    ∷ ascii "endtablerow"
    ∷ ascii "comment"
    ∷ ascii "endcomment"
    ∷ ascii "raw"
    ∷ ascii "endraw"
    ∷ ascii "else"
    ∷ ascii "break"
    ∷ ascii "continue"
    ∷ ascii "increment"
    ∷ ascii "decrement"
    ∷ []

-- isNonExprTag.
unfoldable pub is_non_expr_tag : Text → Bool
unfolding string_fields has_word
is_non_expr_tag expr = elim (string_fields expr) [
  | [] ↦ true
  | word ∷ _ ↦ has_word non_expr_words word
]

-- The loop of expressionBlocks over the tags.
unfoldable pub tag_expressions : List Text → List Text
unfolding is_non_expr_tag trim_space
tag_expressions [] = []
tag_expressions (m ∷ rest) =
    let later = tag_expressions rest in
    if is_non_expr_tag (trim_space m) then later else trim_space m ∷ later

-- expressionBlocks.
unfoldable pub expression_blocks : Text → List Text
unfolding find_all block tag_expressions
expression_blocks template =
    find_all (block (ascii "{{") (ascii "}}")) template
    ++ tag_expressions (find_all (block (ascii "{%") (ascii "%}")) template)

unfoldable pub keys_of : Fields → List Text
keys_of end = []
keys_of (field k v rest) = k ∷ keys_of rest

-- The names that checkUnknownVariables knows.
unfoldable pub known_names : Text → Fields → List Text
unfolding keys_of find_all loop_var assign_var capture_var
known_names template bindings =
    ascii "forloop" ∷ ascii "tablerowloop" ∷ keys_of bindings
    ++ find_all (loop_var (ascii "for")) template
    ++ find_all assign_var template
    ++ find_all capture_var template
    ++ find_all (loop_var (ascii "tablerow")) template

-- The first name of a list that is not known.
unfoldable pub first_unknown : List Text → List Text → Option Text
first_unknown known [] = none
first_unknown known (root ∷ rest) =
    if not (has_word known root) then some root else first_unknown known rest

-- The second pass of checkUnknownVariables.
unfoldable pub unknown_in_blocks : List Text → List Text → Option Text
unfolding first_unknown
unknown_in_blocks known [] = none
unknown_in_blocks known (b ∷ rest) = elim (first_unknown known (variable_roots b)) [
  | some root ↦ some root
  | none ↦ unknown_in_blocks known rest
]

-- checkUnknownVariables.
unfoldable pub check_unknown_variables : Text → Fields → Option PromptError
check_unknown_variables template bindings =
    elim (unknown_in_blocks (known_names template bindings) (expression_blocks template)) [
      | none ↦ none
      | some root ↦
          some (record { code = template_render_error; msg = ascii "unknown variable: " ++ root })
    ]

-- The Liquid engine: parsing, and rendering with bindings.
pub record Engine (Template : Type 0) : Type 0 where
  pub parse_string : Text → Result Text Template
  pub render_template : Template → Fields → Result Text Text

unfoldable pub render_with :
    {Template : Type 0} → Engine Template → Text → Fields → Result PromptError Text
unfolding check_unknown_variables
render_with engine body bindings = elim (check_unknown_variables body bindings) [
  | some e ↦ err e
  | none ↦ elim (engine.parse_string body) [
    | err e ↦ err (record { code = template_parse_error; msg = e })
    | ok tmpl ↦ elim (engine.render_template tmpl bindings) [
      | err e ↦ err (record { code = template_render_error; msg = e })
      | ok out ↦ ok out
    ]
  ]
]

-- Render.
unfoldable pub render :
    {Template : Type 0} → Engine Template → Text → Issue → Option ℤ → Result PromptError Text
unfolding render_with build_bindings trim_space is_blank
render engine template issue attempt =
    let body = if is_blank (trim_space template) then default_prompt else template in
    render_with engine body (build_bindings issue attempt)
