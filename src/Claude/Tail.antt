-- ===== src/Claude/Tail.antt =====
-- boundedTail of internal/agent/claude/tail.go: the last bytes of the error stream of a turn. A line
-- beyond the buffer of the scanner (1 MB), at which the code stops to read, is left out.
use my_symphony.Go.Utf8.{Text}
use my_symphony.Base.{◌∷◌, ◌-◌, ◌++◌, ℕ, ltb, length, if◌then◌else◌, drop, [], List}

-- One round of the loop of readFrom.
unfoldable pub append_line : ℕ → Text → Text → Text
append_line limit buf line =
    let grown = (buf ++ line) ++ (10 ∷ []) in
    if ltb limit (length grown) then drop (length grown - limit) grown else grown

-- readFrom over the lines of the scanner.
unfoldable pub read_from : ℕ → Text → List Text → Text
unfolding append_line
read_from limit buf [] = buf
read_from limit buf (line ∷ rest) = read_from limit (append_line limit buf line) rest

-- The last bytes of a text.
abbrev pub last_bytes : ℕ → Text → Text
last_bytes n s = drop (length s - n) s

-- Lines as they were written.
abbrev pub written : List Text → Text
written [] = []
written (line ∷ rest) = (line ++ (10 ∷ [])) ++ written rest
