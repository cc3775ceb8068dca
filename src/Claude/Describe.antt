-- ===== src/Claude/Describe.antt =====
-- internal/agent/claude/parse.go: what is read of the values of a stream event.
-- A raw message is its decoded value, an absent one `null`; json.Marshal is an argument.
use my_symphony.Orchestrator.Env.{Usage}
use my_symphony.Go.Value.{
  Value, Values, Fields, null, float, int, str, arr, object, nil, cons, index,
}
use my_symphony.Go.Utf8.{Text, ascii, text_eq, is_blank}
use my_symphony.Go.Strings.{trim_space}
use my_symphony.Go.Int64.{add64}
use my_symphony.Base.{
  ◌∷◌, ◌^◌, ◌==◌, ◌/◌, ◌-◌, ◌-ℤ◌, ◌+◌, ◌++◌, ℤ, ℕ, take, some, pos_part, pos, none, negsuc,
  neg_part, ltb, leb, if◌then◌else◌, [], Option, List,
}

abbrev pub max_summary_len : ℕ
max_summary_len = 2000

abbrev pub max_detail_len : ℕ
max_detail_len = 4000

-- `int(t)` of the magnitude m / 2 ^ k, where a value out of range converts to the least `int`.
unfoldable pub truncated : ℤ → ℕ → ℤ
truncated z k =
    let n = (pos_part z + neg_part z) / 2 ^ k in
    if neg_part z == 0
    then if ltb n (2 ^ 63) then pos n else negsuc (2 ^ 63 - 1)
    else if leb n (2 ^ 63)
    then pos 0 -ℤ pos n
    else negsuc (2 ^ 63 - 1)

-- asInt.
unfoldable pub as_int : Value → ℤ
as_int (float z k) = truncated z k
as_int (int z) = z
as_int _ = pos 0

-- usageFromMap.
unfoldable pub usage_from_map : Fields → Usage
usage_from_map m =
    let input =
      add64
        (add64 (as_int (index (ascii "input_tokens") m))
          (as_int (index (ascii "cache_read_input_tokens") m)))
        (as_int (index (ascii "cache_creation_input_tokens") m)) in
    let output = as_int (index (ascii "output_tokens") m) in
    record { input_tokens = input; output_tokens = output; total_tokens = add64 input output }

-- extractUsage.
unfoldable pub extract_usage : Value → Option Usage
extract_usage (object m) = some (usage_from_map m)
extract_usage _ = none

unfoldable pub usage_field : Fields → Option Usage
usage_field m = extract_usage (index (ascii "usage") m)

-- extractMessageUsage.
unfoldable pub extract_message_usage : Value → Option Usage
extract_message_usage (object m) = usage_field m
extract_message_usage _ = none

-- extractRateLimits; `none` is a nil map.
unfoldable pub extract_rate_limits : Option Fields → Value
extract_rate_limits none = null
extract_rate_limits (some m) = index (ascii "rate_limits") m

-- truncate of this package: a plain cut.
unfoldable pub truncate : Text → ℕ → Text
truncate s n = take n s

-- `v.(string)`, with "" for another type.
unfoldable pub text_of : Value → Text
text_of (str t) = t
text_of _ = []

-- strings.Join.
unfoldable pub join_texts : Text → List Text → Text
join_texts sep [] = []
join_texts sep (t ∷ []) = t
join_texts sep (t ∷ u ∷ ts) = t ++ (sep ++ join_texts sep (u ∷ ts))

unfoldable pub result_parts : Values → List Text
result_parts nil = []
result_parts (cons (object bm) vs) =
    let t = text_of (index (ascii "text") bm) in
    let rest = result_parts vs in if is_blank t then rest else t ∷ rest
result_parts (cons _ vs) = result_parts vs

-- toolResultText.
unfoldable pub tool_result_text : Value → Text
tool_result_text (str t) = t
tool_result_text (arr vs) = join_texts (ascii "\n") (result_parts vs)
tool_result_text _ = []

-- encodeInput.
unfoldable pub encode_input : (Value → Option Text) → Value → Text
encode_input marshal null = ascii "{}"
encode_input marshal v = elim (marshal v) [ some t ↦ t | none ↦ [] ]

-- One content block: its parts of the summary and of the detail.
unfoldable pub block_parts : (Value → Option Text) → Fields → List Text × List Text
block_parts marshal bm =
    let type = index (ascii "type") bm in
    let prose = text_of (index (ascii "text") bm) in
    let thought = text_of (index (ascii "thinking") bm) in
    let given = text_of (index (ascii "name") bm) in
    let name = if is_blank given then ascii "tool_use" else given in
    let answer = tool_result_text (index (ascii "content") bm) in
    elim type [
      | str t ↦
          if text_eq t (ascii "text")
          then (if is_blank prose then [] else prose ∷ [], [])
          else if text_eq t (ascii "thinking")
          then (
            ascii "thinking" ∷ [],
            if is_blank thought then [] else (ascii "thinking\n" ++ thought) ∷ [],
          )
          else if text_eq t (ascii "tool_use")
          then (
            name ∷ [],
            (0xe2
                  ∷ 0x86
                  ∷ 0x92
                  ∷ b' '
                  ∷ (name ++ (b' ' ∷ encode_input marshal (index (ascii "input") bm))))
                ∷ [],
          )
          else if text_eq t (ascii "tool_result")
          then (
            ascii "tool_result" ∷ [],
            if is_blank answer
                then []
                else (0xe2 ∷ 0x86 ∷ 0x90 ∷ (ascii " result\n" ++ answer)) ∷ [],
          )
          else (t ∷ [], [])
      | _ ↦ ([], [])
    ]

unfoldable pub all_parts : (Value → Option Text) → Values → List Text × List Text
all_parts marshal nil = ([], [])
all_parts marshal (cons (object bm) vs) =
    let (summary, detail) = block_parts marshal bm in
    let (summaries, details) = all_parts marshal vs in (summary ++ summaries, detail ++ details)
all_parts marshal (cons _ vs) = all_parts marshal vs

unfoldable pub describe_content : (Value → Option Text) → Value → Text × Text
describe_content marshal (arr vs) =
    let (summaries, details) = all_parts marshal vs in
    (
      truncate (trim_space (join_texts (ascii " ") summaries)) max_summary_len,
      truncate (trim_space (join_texts (ascii "\n\n") details)) max_detail_len,
    )
describe_content marshal _ = ([], [])

-- describeMessage.
unfoldable pub describe_message : (Value → Option Text) → Value → Text × Text
describe_message marshal (object m) = describe_content marshal (index (ascii "content") m)
describe_message marshal _ = ([], [])
