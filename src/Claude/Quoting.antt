-- ===== src/Claude/Quoting.antt =====
-- shellSingleQuote of internal/agent/claude/client.go against the shell's reading of a word.
use my_symphony.Claude.Command.{escape_quotes, shell_single_quote}
use my_symphony.Go.Utf8.{Text}
use my_symphony.Base.{
  ==_iff, ◌≡◌, ◌∷◌, ◌||◌, ◌==◌, ◌++◌, ◌&&◌, ℕ, some, refl, none, leb, inr, inl, if◌then◌else◌, [],
  Option, Bool-cases, Bool,
}

-- How a POSIX shell reads a word: plain, after a backslash, or in single quotes; `none` where the
-- word needs more text, or has a byte that this reader leaves to the shell's other rules.
pub data Mode : Type 0 where
  bare : Mode
  escaped : Mode
  quoted : Mode

abbrev is_word_byte : ℕ → Bool
is_word_byte b =
    (leb b'a' b && leb b b'z') || (leb b'A' b && leb b b'Z') || (leb b'0' b && leb b b'9')

abbrev map_cons : ℕ → Option Text → Option Text
map_cons b none = none
map_cons b (some s) = some (b ∷ s)

abbrev pub read_shell : Mode → Text → Option Text
read_shell bare [] = some []
read_shell escaped [] = none
read_shell quoted [] = none
read_shell escaped (b ∷ s) = map_cons b (read_shell bare s)
read_shell quoted (b ∷ s) =
    let closed = read_shell bare s in
    let inside = map_cons b (read_shell quoted s) in if b == b'\'' then closed else inside
read_shell bare (b ∷ s) =
    let opened = read_shell quoted s in
    let escape = read_shell escaped s in
    let plain = map_cons b (read_shell bare s) in
    if b == b'\''
    then opened
    else if b == b'\\'
    then escape
    else if is_word_byte b
    then plain
    else none

escape_quotes-read : (s : Text) → read_shell quoted (escape_quotes s ++ (b'\'' ∷ [])) ≡ some s
unfolding escape_quotes
escape_quotes-read [] = refl
escape_quotes-read (b ∷ s) = elim (Bool-cases (b == b'\'')) [
  | inl quote ↦
      let same : b ≡ b'\'' = (==_iff b b'\'').0 quote in rw same (rw (escape_quotes-read s) refl)
  | inr other ↦ rw other (rw (other, escape_quotes-read s) refl)
]

-- Whatever a value is, its quoted form is one word of the shell, and the shell reads the value back
-- from it: no byte of a model or an effort reaches the shell unquoted.
pub shell_single_quote-read : (s : Text) → read_shell bare (shell_single_quote s) ≡ some s
unfolding shell_single_quote
shell_single_quote-read s = escape_quotes-read s
