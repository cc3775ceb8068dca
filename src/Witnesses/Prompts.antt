-- ===== src/Witnesses/Prompts.antt =====
-- The prompt theorems at concrete inputs, and runs of the strict check.
use my_symphony.Go.Utf8.{text_eq, ascii}
use my_symphony.Base.{◌∷◌, [], List, ◌≡◌, some, refl, none}
use my_symphony.Prompt.{
  unknown_in_blocks, known_names, expression_blocks, template_render_error, check_unknown_variables,
  build_bindings,
}
use my_symphony.Witnesses.{issue_a}
use my_symphony.Go.Strings.{trim_prefix, trim_space, string_fields}
use my_symphony.Prompt.Roots.{
  variable_roots, has_word, strip_string_literals, roots_in_pipeline, is_keyword,
}
use my_symphony.Prompt.Scan.{is_ident_start, is_ident_byte}
use my_symphony.Prompt.Printed.{check_unknown_variables-template_of}
use my_symphony.Prompt.Document.{output, plain, template_of, Segment}
use my_symphony.Go.Strconv.{is_digit}

prompt_tools : Unit {0}
unfolding check_unknown_variables trim_prefix known_names expression_blocks unknown_in_blocks
    variable_roots has_word string_fields trim_space text_eq is_keyword strip_string_literals
    roots_in_pipeline
prompt_tools = tt

knows_issue :
    check_unknown_variables
      (ascii
        "Fix {{ issue.title | append: attempt }}{% for l in issue.labels %}{{- l -}}{% endfor %}")
      (build_bindings issue_a none)
    ≡ none
unfolding prompt_tools build_bindings
knows_issue = refl

misses_author :
    check_unknown_variables
      (ascii "{% assign n = issue.id %}{% if n == 'x' %}{{ author.name }}{% endif %}")
      (build_bindings issue_a none)
    ≡ some (record { code = template_render_error; msg = ascii "unknown variable: author" })
unfolding prompt_tools build_bindings
misses_author = refl

-- "Fix {{ issue.title }}, {{ author }}".
abbrev letter : List Segment
letter =
    plain (ascii "Fix ")
    ∷ output (record { root = ascii "issue"; props = ascii "title" ∷ [] })
    ∷ plain (ascii ", ")
    ∷ output (record { root = ascii "author"; props = [] })
    ∷ []

check_unknown_variables-template_of_example :
    check_unknown_variables (template_of letter) (build_bindings issue_a none)
    ≡ some (record { code = template_render_error; msg = ascii "unknown variable: author" })
unfolding prompt_tools is_ident_start is_ident_byte is_digit
check_unknown_variables-template_of_example =
    check_unknown_variables-template_of letter issue_a none (
      (refl, (refl, (refl, (refl, tt)))),
      (
        (
          (refl, (refl, (refl, (refl, (refl, tt))))),
          ((refl, (refl, (refl, (refl, (refl, tt))))), tt),
        ),
        ((refl, (refl, tt)), (((refl, (refl, (refl, (refl, (refl, (refl, tt)))))), tt), tt)),
      ),
    )

-- What the check overlooks: an output over two lines, and the end of a range.
overlooks :
    (check_unknown_variables (ascii "{{\nbogus }}") (build_bindings issue_a none) ≡ none)
    × (check_unknown_variables
          (ascii "{% for i in (1..bogus) %}{% endfor %}")
          (build_bindings issue_a none)
        ≡ none)
unfolding prompt_tools build_bindings
overlooks = (refl, refl)
