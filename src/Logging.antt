-- ===== src/Logging.antt =====
-- internal/logging/logging.go: the bound on a logged value. The sinks are output only.
use my_symphony.Base.{
  ℕ, ◌+◌, ◌≤◌, if◌then◌else◌, leb, ◌∷◌, ◌++◌, length, take, arith, length-append, length-take-le,
}
use my_symphony.Go.Utf8.{Text, ascii}
use my_symphony.Go.Strings.{trim_space}

abbrev pub max_message_len : ℕ
max_message_len = 500

-- "…(truncated)".
abbrev pub truncation_mark : Text
truncation_mark = 0xe2 ∷ 0x80 ∷ 0xa6 ∷ ascii "(truncated)"

-- A text cut to a number of bytes, with a mark where it was longer.
unfoldable pub cut_to : ℕ → Text → Text → Text
cut_to limit mark s = if leb (length s) limit then s else take limit s ++ mark

-- Truncate.
unfoldable pub truncate : Text → Text
truncate s = cut_to max_message_len truncation_mark (trim_space s)

length-cut_to-le : (limit : ℕ) (mark s : Text) → length (cut_to limit mark s) ≤ limit + length mark
unfolding cut_to
length-cut_to-le limit mark s =
    ground (arith, length-append (take limit s) mark, length-take-le limit s)

-- A truncated value has at most 514 bytes, the mark included.
pub length-truncate-le : (s : Text) → length (truncate s) ≤ 514
unfolding truncate
length-truncate-le s = length-cut_to-le max_message_len truncation_mark (trim_space s)
