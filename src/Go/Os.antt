-- ===== src/Go/Os.antt =====
-- The functions of package os that read the environment.
use my_symphony.Go.Utf8.{Text, ascii, is_blank}
use my_symphony.Go.Strconv.{is_digit}
use my_symphony.Base.{
  ◌≡◌, ◌∷◌, ◌||◌, ◌==◌, ◌++◌, ◌&&◌, ℕ, zero, true, suc, some, refl, not, none, length, leb,
  if◌then◌else◌, false, [], Result, Option, Bool,
}

-- What the process finds: its variables, directories and files.
pub record Process : Type 0 where
  pub getenv : Text → Text
  pub user_home_dir : Option Text
  pub temp_dir : Text
  pub getwd : Result Text Text
  pub read_file : Text → Result Text Text

is_alpha_num : ℕ → Bool
is_alpha_num b = b == b'_' || is_digit b || (leb b'a' b && leb b b'z') || (leb b'A' b && leb b b'Z')

is_shell_special : ℕ → Bool
is_shell_special b =
    b == b'*'
    || b == b'#'
    || b == b'$'
    || b == b'@'
    || b == b'!'
    || b == b'?'
    || b == b'-'
    || is_digit b

-- The letters and digits at the start, and the rest.
alpha_num_prefix : Text → Text × Text
alpha_num_prefix [] = ([], [])
alpha_num_prefix (b ∷ s) =
    let (name, rest) = alpha_num_prefix s in
    if is_alpha_num b then (b ∷ name, rest) else ([], b ∷ s)

-- What stands before a closing brace, and the rest after it.
to_brace : Text → Option (Text × Text)
to_brace [] = none
to_brace (b ∷ s) =
    let rest = to_brace s in
    if b == b'}'
    then some ([], s)
    else elim rest [ none ↦ none | some (name, after) ↦ some (b ∷ name, after) ]

-- getShellName after a "$": the name, whether bytes were taken, and the rest.
shell_name : Text → Text × Bool × Text
shell_name [] = ([], false, [])
shell_name (b ∷ s) =
    let (name, rest) = alpha_num_prefix (b ∷ s) in
    if b == b'{'
    then elim (to_brace s) [ none ↦ ([], true, s) | some (inner, after) ↦ (inner, true, after) ]
    else if is_shell_special b
    then (b ∷ [], true, s)
    else (name, not (is_blank name), rest)

-- os.Expand; each round takes a byte at least.
expand_from : (Text → Text) → ℕ → Text → Text
expand_from value zero s = []
expand_from value (suc fuel) [] = []
expand_from value (suc fuel) (b ∷ s) =
    let (name, taken, rest) = shell_name s in
    let after_name = expand_from value fuel rest in
    let after_byte = expand_from value fuel s in
    if b == b'$' && not (is_blank s)
    then if is_blank name
      then if taken then after_name else b ∷ after_name
      else value name ++ after_name
    else b ∷ after_byte

unfoldable pub expand : (Text → Text) → Text → Text
unfolding expand_from shell_name to_brace alpha_num_prefix is_alpha_num is_shell_special is_digit
    is_blank
expand value s = expand_from value (length s) s

expand_test :
    expand (λ name. ascii "<" ++ name ++ ascii ">") (ascii "/a/$HOME/${X_1}$.b$")
    ≡ ascii "/a/<HOME>/<X_1>$.b$"
unfolding expand
expand_test = refl
