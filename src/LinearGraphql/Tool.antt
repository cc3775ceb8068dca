-- ===== src/LinearGraphql/Tool.antt =====
-- internal/tools/lineargql/tool.go: Execute, which posts what counts as one operation.
-- The HTTP exchange and the JSON decoder of the standard library are answers of the model: a raw
-- message is its bytes, an absent one is empty.
use my_symphony.LinearGraphql.Parse.{count_operations}
use my_symphony.Go.Utf8.{Text, ascii, text_eq, is_blank}
use my_symphony.Go.Strings.{trim_space}
use my_symphony.Go.Value.{Fields}
use my_symphony.Base.{
  ◌∷◌, ◌||◌, ◌==◌, ℕ, some, ok, not, none, if◌then◌else◌, false, err, [], Result, Option, List,
  Bool,
}

pub record Tool : Type 0 where
  pub endpoint : Text
  pub api_key : Text

-- New, without its HTTP client.
unfoldable pub new_tool : Text → Text → Tool
unfolding is_blank
new_tool endpoint api_key = record {
  endpoint = if is_blank endpoint then ascii "https://api.linear.app/graphql" else endpoint;
  api_key = api_key;
}

-- `variables` is `none` for a nil map.
pub record Input : Type 0 where
  pub query : Text
  pub variables : Option Fields

pub data ToolError : Type 0 where
  empty_query : ToolError
  wrong_count : ℕ → ToolError
  missing_auth : ToolError
  post_failed : Text → ToolError
  bad_status : ℕ → ToolError
  malformed : ToolError

-- ResultError, of which the code is a function.
unfoldable pub code_of : ToolError → Text
code_of empty_query = ascii "invalid_input"
code_of (wrong_count n) = ascii "invalid_input"
code_of missing_auth = ascii "missing_auth"
code_of (post_failed e) = ascii "transport_error"
code_of (bad_status n) = ascii "transport_error"
code_of malformed = ascii "transport_error"

pub record ToolResult : Type 0 where
  pub success : Bool
  pub data_message : Text
  pub errors : Text
  pub error : Option ToolError

pub record Envelope : Type 0 where
  pub data_message : Text
  pub errors : Text

-- The exchange: `post` sends the tool's request and answers with the body and the status.
pub record Http : Type 0 where
  pub post : Tool → Input → Result Text (Text × ℕ)
  pub decode : Text → Option Envelope

-- failure.
unfoldable pub failure : ToolError → ToolResult
failure e = record { success = false; data_message = []; errors = []; error = some e }

-- The checks of Execute before it posts.
unfoldable pub reject : Tool → Input → Option ToolError
unfolding count_operations trim_space is_blank
reject t input =
    if is_blank (trim_space input.query)
    then some empty_query
    else if not (count_operations input.query == 1)
    then some (wrong_count (count_operations input.query))
    else if is_blank (trim_space t.api_key)
    then some missing_auth
    else none

unfoldable pub of_envelope : Envelope → ToolResult
unfolding is_blank text_eq
of_envelope envelope = record {
  success = is_blank envelope.errors || text_eq envelope.errors (ascii "null");
  data_message = envelope.data_message;
  errors = envelope.errors;
  error = none;
}

-- Execute: what it posts, if it does, and its result.
unfoldable pub execute : Http → Tool → Input → List Input × ToolResult
unfolding reject failure of_envelope
execute http t input = elim (reject t input) [
  | some e ↦ ([], failure e)
  | none ↦ elim (http.post t input) [
    | err e ↦ (input ∷ [], failure (post_failed e))
    | ok (body, status) ↦
        if not (status == 200)
        then (input ∷ [], failure (bad_status status))
        else elim (http.decode body) [
          | none ↦ (input ∷ [], failure malformed)
          | some envelope ↦ (input ∷ [], of_envelope envelope)
        ]
  ]
]

-- ParseInput, with encoding/json's decoding of a string and of an object; an error is its text.
pub record InputDecoder : Type 0 where
  pub decode_string : Text → Result Text Text
  pub decode_input : Text → Result Text Input

unfoldable pub parse_input : InputDecoder → Text → Result Text Input
parse_input json raw = elim (trim_space raw) [
  | [] ↦ err (ascii "empty input")
  | b ∷ rest ↦
      if b == b'"'
      then elim (json.decode_string (b ∷ rest)) [
        | err e ↦ err e
        | ok q ↦ ok (record { query = q; variables = none })
      ]
      else json.decode_input (b ∷ rest)
]
