-- ===== src/Go/CaseRange.antt =====
-- Ranges of runes with a case mapping.
use my_symphony.Base.{ℕ, ◌+◌, ◌-◌, ◌%◌, ◌&&◌, leb, ◌==◌, if◌then◌else◌, List, [], ◌∷◌}

-- The runes low, low + stride, … up to high; each is moved by target - low.
pub data CaseRange : Type 0 where
  case_range : (low high stride target : ℕ) → CaseRange

-- The image of a rune, itself where no range has it.
unfoldable pub map_case : List CaseRange → ℕ → ℕ
map_case [] c = c
map_case (case_range low high stride target ∷ rest) c =
    if leb low c && leb c high && (c - low) % stride == 0
    then target + (c - low)
    else map_case rest c
