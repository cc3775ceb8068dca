-- ===== src/LinearGraphql/Posts.antt =====
-- What Execute of internal/tools/lineargql/tool.go posts and when it succeeds.
use my_symphony.LinearGraphql.Parse.{count_operations}
use my_symphony.LinearGraphql.Tool.{
  Tool, Input, Http, Envelope, execute, reject, failure, of_envelope, ToolResult,
}
use my_symphony.Go.Utf8.{Text, ascii, text_eq, is_blank}
use my_symphony.Go.Strings.{trim_space}
use my_symphony.Base.{
  inr, inl, Result-cases, Option-cases, ◌⊎◌, ◌≡◌, ◌∷◌, true, some, refl, ok, none, false, arith, [],
}

-- An input that may be posted.
pub record IsPostable (t : Tool) (input : Input) : Type 0 where
  pub nonempty : is_blank (trim_space input.query) ≡ false
  pub single : count_operations input.query ≡ 1
  pub has_auth : is_blank (trim_space t.api_key) ≡ false

reject_sound : (t : Tool) (input : Input) → reject t input ≡ none → IsPostable t input
unfolding reject
reject_sound t input h = record {
  nonempty = ground arith;
  single = ground arith;
  has_auth = ground arith;
}

reject_complete : (t : Tool) (input : Input) → IsPostable t input → reject t input ≡ none
unfolding reject
reject_complete t input h = rw (h.nonempty, h.single, h.has_auth) refl

-- An answer that counts as a success.
pub record IsSuccess (http : Http) (t : Tool) (input : Input) (r : ToolResult) : Type 0 where
  pub body : Text
  pub envelope : Envelope
  pub answered : http.post t input ≡ ok (body, 200)
  pub decoded : http.decode body ≡ some envelope
  pub no_errors :
      (is_blank envelope.errors ≡ true) ⊎ (text_eq envelope.errors (ascii "null") ≡ true)
  pub data_kept : r.data_message ≡ envelope.data_message

module _ (http : Http) (t : Tool) (input : Input) where
  -- Execute posts the input once if its query is not blank, countOperations counts one operation in it
  -- and there is a key; else it posts nothing and fails.
  pub execute_lem :
      (((execute http t input).0 ≡ input ∷ []) × IsPostable t input)
      ⊎ (((execute http t input).0 ≡ [])
          × ¬ IsPostable t input
          × ((execute http t input).1.success ≡ false))
  unfolding execute failure
  execute_lem = elim (Option-cases (reject t input)) [
    | inl is_none ↦ inl (ground arith, reject_sound t input is_none)
    | inr (e, rejected) ↦
        inr (ground arith, (λ h. absurd (ground (arith, reject_complete t input h))), ground arith)
  ]

  -- Execute succeeds only where the post is answered with status 200 and a body that decodes, whose
  -- errors are absent or null; the data are then those of the body.
  pub execute-success :
      (execute http t input).1.success ≡ true → IsSuccess http t input (execute http t input).1
  unfolding execute failure of_envelope
  execute-success h = elim (Option-cases (reject t input)) [
    | inr (e, rejected) ↦ absurd (ground arith)
    | inl passed ↦ elim (Result-cases (http.post t input)) [
      | inr (e, is_err) ↦ absurd (ground arith)
      | inl (answer, answered) ↦ elim (Option-cases (http.decode answer.0)) [
        | inl malformed ↦ absurd (ground arith)
        | inr (envelope, decoded) ↦ record {
          body = answer.0;
          envelope = envelope;
          answered = ground arith;
          decoded = decoded;
          no_errors = ground arith;
          data_kept = ground arith;
        }
      ]
    ]
  ]
