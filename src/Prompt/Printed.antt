-- ===== src/Prompt/Printed.antt =====
-- The strict check of internal/prompt on written templates.
use my_symphony.Go.Utf8.{Text, ascii}
use my_symphony.Base.{
  ◌++◌, inr, inl, Bool-cases, ◌≡◌, ◌∷◌, ◌||◌, ℤ, some, refl, none, map, if◌then◌else◌, append_nil,
  [], Option, List, All,
}
use my_symphony.Prompt.Document.{
  template_of, output, plain, outputs, inner, find_from-tags, find_from-outputs, Segment, Output,
  NeedsTag, IsPlain,
}
use my_symphony.Prompt.Roots.{is_keyword, has_word}
use my_symphony.Prompt.{
  template_render_error, check_unknown_variables, unknown_in_blocks, tag_expressions, known_names,
  keys_of, expression_blocks, build_bindings,
}
use my_symphony.Prompt.Scan.{block, literal, tag_head, loop_var, find_all, capture_var, assign_var}
use my_symphony.Domain.{Issue}
use my_symphony.Prompt.Strict.{variable_roots-inner}

NeedsTag-block : NeedsTag (block (ascii "{%") (ascii "%}"))
unfolding block
NeedsTag-block s e = rw (e, block) refl

tag_head-NeedsTag : (word s : Text) → literal (ascii "{%") s ≡ none → tag_head word s ≡ none
unfolding tag_head
tag_head-NeedsTag word s e = rw (e, tag_head) refl

loop_var-NeedsTag : (word : Text) → NeedsTag (loop_var word)
unfolding loop_var
loop_var-NeedsTag word s e = rw (tag_head-NeedsTag word s e, loop_var) refl

assign_var-NeedsTag : NeedsTag assign_var
unfolding assign_var
assign_var-NeedsTag s e = rw (tag_head-NeedsTag (ascii "assign") s e, assign_var) refl

capture_var-NeedsTag : NeedsTag capture_var
unfolding capture_var
capture_var-NeedsTag s e = rw (tag_head-NeedsTag (ascii "capture") s e, capture_var) refl

-- The names that every template knows.
abbrev pub given_names : List Text
given_names = ascii "forloop" ∷ ascii "tablerowloop" ∷ ascii "issue" ∷ ascii "attempt" ∷ []

known_names-template_of :
    (doc : List Segment) (issue : Issue) (attempt : Option ℤ)
    → All IsPlain doc
    → known_names (template_of doc) (build_bindings issue attempt) ≡ given_names
unfolding known_names find_all keys_of build_bindings
known_names-template_of doc issue attempt h =
    rw
      (
        find_from-tags (loop_var (ascii "for")) doc (loop_var-NeedsTag (ascii "for")) h,
        find_from-tags assign_var doc assign_var-NeedsTag h,
        find_from-tags capture_var doc capture_var-NeedsTag h,
        find_from-tags (loop_var (ascii "tablerow")) doc (loop_var-NeedsTag (ascii "tablerow")) h,
      )
      refl

expression_blocks-template_of :
    (doc : List Segment)
    → All IsPlain doc
    → expression_blocks (template_of doc) ≡ map inner (outputs doc)
unfolding expression_blocks find_all tag_expressions
expression_blocks-template_of doc h =
    rw
      (
        find_from-outputs doc h,
        find_from-tags (block (ascii "{%") (ascii "%}")) doc NeedsTag-block h,
      )
      (append_nil (map inner (outputs doc)))

-- The first output whose root is neither given nor a word of Liquid.
abbrev pub first_stranger : List Output → Option Text
first_stranger [] = none
first_stranger (o ∷ os) =
    if is_keyword o.root || has_word given_names o.root then first_stranger os else some o.root

unknown_in_blocks-outputs :
    (doc : List Segment)
    → All IsPlain doc
    → unknown_in_blocks given_names (map inner (outputs doc)) ≡ first_stranger (outputs doc)
unfolding unknown_in_blocks
unknown_in_blocks-outputs [] h = refl
unknown_in_blocks-outputs (plain t ∷ doc) h = unknown_in_blocks-outputs doc h.1
unknown_in_blocks-outputs (output o ∷ doc) h =
    let rest = unknown_in_blocks-outputs doc h.1 in
    let roots = variable_roots-inner o h.0 in
    elim (Bool-cases (is_keyword o.root)) [
      | inl k ↦ rw (roots, unknown_in_blocks, k) rest
      | inr k ↦ elim (Bool-cases (has_word given_names o.root)) [
        | inl g ↦ rw (roots, unknown_in_blocks, k, g) rest
        | inr g ↦ rw (roots, unknown_in_blocks, k, g) refl
      ]
    ]

-- A template of plain text and of outputs of variables with their properties passes the strict check
-- exactly if every variable is a binding, a loop object or a word of Liquid; otherwise the check
-- fails with a render error that names the first other variable.
pub check_unknown_variables-template_of :
    (doc : List Segment) (issue : Issue) (attempt : Option ℤ)
    → All IsPlain doc
    → check_unknown_variables (template_of doc) (build_bindings issue attempt)
      ≡ elim (first_stranger (outputs doc)) [
        | none ↦ none
        | some root ↦
            some (record { code = template_render_error; msg = ascii "unknown variable: " ++ root })
      ]
unfolding check_unknown_variables
check_unknown_variables-template_of doc issue attempt h =
    let found : unknown_in_blocks (known_names (template_of doc) (build_bindings issue attempt))
          (expression_blocks (template_of doc))
        ≡ first_stranger (outputs doc) =
      rw (known_names-template_of doc issue attempt h, expression_blocks-template_of doc h)
        (unknown_in_blocks-outputs doc h) in
    rw (found, check_unknown_variables) refl
