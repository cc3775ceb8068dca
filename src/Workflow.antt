-- ===== src/Workflow.antt =====
-- internal/workflow/workflow.go: the front matter and the prompt of a workflow file.
-- The YAML decoder is a third party's, an argument: it gives a value or the text of an error.
pub mod Split
use my_symphony.Go.Utf8.{Text, ascii, text_eq}
use my_symphony.Go.Strings.{trim_space, has_prefix}
use my_symphony.Go.Value.{Value, Values, Fields, null, arr, object, nil, cons, end, field}
use mathlib.Core.List.{reverse}
use my_symphony.Base.{
  ◌*◌, ℕ, ltb, length, ◌∷◌, ◌||◌, ◌==◌, ◌++◌, true, ok, map, if◌then◌else◌, false, err, drop, [],
  Result, List, Bool,
}

pub record Definition : Type 0 where
  pub config : Fields
  pub prompt_template : Text

pub data WorkflowError : Type 0 where
  missing_workflow_file : Text → WorkflowError
  workflow_parse_error : Text → WorkflowError
  front_matter_not_a_map : WorkflowError

-- strings.TrimRight with the cutset " \t\r".
unfoldable pub trim_left_blanks : Text → Text
trim_left_blanks [] = []
trim_left_blanks (b ∷ s) =
    if b == b' ' || b == b'\t' || b == b'\r' then trim_left_blanks s else b ∷ s

unfoldable pub is_fence : Text → Bool
is_fence line = text_eq (reverse (trim_left_blanks (reverse line))) (ascii "---")

-- A line without the "\r" that ends it.
unfoldable pub drop_cr : Text → Text
drop_cr [] = []
drop_cr (b ∷ []) = if b == b'\r' then [] else b ∷ []
drop_cr (b ∷ c ∷ s) = b ∷ drop_cr (c ∷ s)

-- The lines between the "\n"; there is none after the last.
unfoldable pub raw_lines : Text → List Text
raw_lines [] = []
raw_lines (b ∷ s) =
    let rest = raw_lines s in
    if b == b'\n' then [] ∷ rest else elim rest [ [] ↦ (b ∷ []) ∷ [] | l ∷ ls ↦ (b ∷ l) ∷ ls ]

-- The buffer of the scanner: a line must leave room for one more byte, else the scanner stops.
abbrev pub max_token_size : ℕ
max_token_size = 10 * 1024 * 1024

-- The tokens of the scanner, up to the first line that does not fit its buffer.
unfoldable pub scan_tokens : List Text → List Text
scan_tokens [] = []
scan_tokens (l ∷ ls) =
    let rest = scan_tokens ls in if ltb (length l) max_token_size then drop_cr l ∷ rest else []

unfoldable pub scan_lines : Text → List Text
unfolding scan_tokens
scan_lines s = scan_tokens (raw_lines s)

-- A UTF-8 byte order mark is dropped.
unfoldable pub trim_bom : Text → Text
trim_bom s = if has_prefix s (0xef ∷ 0xbb ∷ 0xbf ∷ []) then drop 3 s else s

abbrev pub write_lines : List Text → Text
write_lines [] = []
write_lines (l ∷ ls) = l ++ (b'\n' ∷ write_lines ls)

-- The loop after the first fence: the front matter up to the next fence, and the body.
unfoldable pub collect : List Text → Text × Text
collect [] = ([], [])
collect (line ∷ rest) =
    let (front, body) = collect rest in
    if is_fence line then ([], write_lines rest) else (line ++ (b'\n' ∷ front), body)

-- The lines of a content, whose first may be a fence.
unfoldable pub split_lines : Text → List Text → Text × Text × Bool
split_lines content [] = ([], content, false)
split_lines content (first ∷ rest) =
    if is_fence first then ((collect rest).0, (collect rest).1, true) else ([], content, false)

-- splitFrontMatter.
unfoldable pub split_front_matter : Text → Text × Text × Bool
split_front_matter text = let content = trim_bom text in split_lines content (scan_lines content)

-- normalizeValue: a copy.
unfoldable mutual
  pub normalize_value : Value → Value
  normalize_value (object fs) = object (normalize_fields fs)
  normalize_value (arr vs) = arr (normalize_values vs)
  normalize_value v = v

  pub normalize_values : Values → Values
  normalize_values nil = nil
  normalize_values (cons v vs) = cons (normalize_value v) (normalize_values vs)

  pub normalize_fields : Fields → Fields
  normalize_fields end = end
  normalize_fields (field k v fs) = field k (normalize_value v) (normalize_fields fs)

-- The configuration that a decoded front matter holds; normalizeMap.
unfoldable pub config_of : Value → Result WorkflowError Fields
config_of null = ok end
config_of (object fs) = ok (normalize_fields fs)
config_of _ = err front_matter_not_a_map

-- Parse.
unfoldable pub parse : (Text → Result Text Value) → Text → Result WorkflowError Definition
parse decode content =
    let (front, body, has_front) = split_front_matter content in
    let decoded : Result WorkflowError Fields = elim (decode front) [
      | err e ↦ err (workflow_parse_error e)
      | ok raw ↦ config_of raw
    ] in
    elim (if has_front then decoded else ok end) [
      | err e ↦ err e
      | ok config ↦ ok record { config = config; prompt_template = trim_space body }
    ]

-- Load.
unfoldable pub load :
    (Text → Result Text Text) → (Text → Result Text Value) → Text → Result WorkflowError Definition
load read_file decode path = elim (read_file path) [
  | err _ ↦ err (missing_workflow_file path)
  | ok content ↦ parse decode content
]
