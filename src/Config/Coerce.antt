-- ===== src/Config/Coerce.antt =====
-- internal/config/coerce.go: values of the front matter as texts, numbers, flags and paths.
-- A failed coercion of asIntStrict is `none`.
use my_symphony.Go.Value.{
  Value, Values, Fields, null, boolean, int, float, str, arr, object, nil, cons, end, field, index,
}
use my_symphony.Go.Utf8.{Text, ascii, text_eq, is_blank}
use my_symphony.Go.Strings.{trim_space, to_lower, has_prefix}
use my_symphony.Go.Strconv.{atoi, is_digit}
use my_symphony.Go.Maps.{Map, put}
use my_symphony.Go.Filepath.{join}
use my_symphony.Go.Os.{Process, expand}
use my_symphony.Base.{
  ◌∷◌, ◌||◌, ◌^◌, ◌==◌, ◌/◌, ◌-ℤ◌, ◌+◌, ◌&&◌, ◌%◌, ℤ, ℕ, true, some, pos_part, pos, not, none,
  neg_part, ltb, leb_ℤ, leb, if◌then◌else◌, false, drop, any, all, [], Option, List, Bool,
}

-- subMap.
unfoldable pub sub_map : Fields → Text → Fields
unfolding index
sub_map m key = elim (index key m) [ object fs ↦ fs | _ ↦ end ]

-- asString.
unfoldable pub as_string : Value → Text
as_string (str t) = t
as_string _ = []

-- firstNonEmpty of two texts.
unfoldable pub first_non_empty : Text → Text → Text
unfolding trim_space is_blank
first_non_empty a b =
    if not (is_blank (trim_space a)) then a else if not (is_blank (trim_space b)) then b else []

unfoldable pub strings_of : Values → List Text
strings_of nil = []
strings_of (cons (str t) vs) = t ∷ strings_of vs
strings_of (cons _ vs) = strings_of vs

-- asStringList.
unfoldable pub as_string_list : Value → List Text
unfolding strings_of
as_string_list (arr vs) = strings_of vs
as_string_list _ = []

-- defaultStringList.
unfoldable pub default_string_list : List Text → List Text → List Text
default_string_list [] def = def
default_string_list (t ∷ ts) def = t ∷ ts

-- A magnitude m / 2 ^ k that is a whole number.
unfoldable pub whole : ℕ → ℕ → Option ℕ
whole m k = if m % 2 ^ k == 0 then some (m / 2 ^ k) else none

-- `t == float64(int(t))`, where a value out of range converts to the least `int`.
unfoldable pub int_of_float : ℤ → ℕ → Option ℤ
unfolding whole
int_of_float z k = elim (whole (pos_part z + neg_part z) k) [
  | none ↦ none
  | some n ↦
      if neg_part z == 0
      then if ltb n (2 ^ 63) then some (pos n) else none
      else if leb n (2 ^ 63)
      then some (pos 0 -ℤ pos n)
      else none
]

-- asIntStrict.
unfoldable pub as_int_strict : Value → ℤ → Option ℤ
unfolding int_of_float trim_space atoi is_blank
as_int_strict null def = some def
as_int_strict (int z) def = some z
as_int_strict (float z k) def = int_of_float z k
as_int_strict (str t) def = let s = trim_space t in if is_blank s then some def else atoi s
as_int_strict _ def = none

-- asIntDefault.
unfoldable pub as_int_default : Value → ℤ → ℤ
unfolding as_int_strict
as_int_default v def = elim (as_int_strict v def) [ some n ↦ n | none ↦ def ]

unfoldable pub is_one_of : List Text → Text → Bool
unfolding text_eq
is_one_of words s = any (text_eq s) words

-- strconv.ParseBool.
unfoldable pub parse_bool : Text → Option Bool
unfolding is_one_of
parse_bool s =
    if is_one_of
      (ascii "1" ∷ ascii "t" ∷ ascii "T" ∷ ascii "true" ∷ ascii "TRUE" ∷ ascii "True" ∷ []) s
    then some true
    else if is_one_of
        (ascii "0" ∷ ascii "f" ∷ ascii "F" ∷ ascii "false" ∷ ascii "FALSE" ∷ ascii "False" ∷ []) s
    then some false
    else none

-- asBoolDefault.
unfoldable pub as_bool_default : Value → Bool → Bool
unfolding parse_bool trim_space
as_bool_default (boolean b) def = b
as_bool_default (str t) def = elim (parse_bool (trim_space t)) [ some b ↦ b | none ↦ def ]
as_bool_default _ def = def

-- The loop of normalizeStateMap, in the order in which the fields are given.
unfoldable pub state_limits : Fields → Map ℤ → Map ℤ
unfolding as_int_strict to_lower trim_space put
state_limits end out = out
state_limits (field k v fs) out = elim (as_int_strict v (pos 0)) [
  | none ↦ state_limits fs out
  | some n ↦ state_limits fs (if leb_ℤ n (pos 0) then out else put (to_lower (trim_space k)) n out)
]

-- normalizeStateMap.
unfoldable pub normalize_state_map : Value → Map ℤ
unfolding state_limits
normalize_state_map (object fs) = state_limits fs []
normalize_state_map _ = []

is_name_letter : ℕ → Bool
is_name_letter r = r == b'_' || (leb b'A' r && leb r b'Z') || (leb b'a' r && leb r b'z')

-- isEnvName; a byte of a longer rune is none of these.
unfoldable pub is_env_name : Text → Bool
unfolding is_name_letter is_digit
is_env_name [] = false
is_env_name (r ∷ rs) = is_name_letter r && all (λ b. is_name_letter b || is_digit b) rs

-- resolveEnv.
unfoldable pub resolve_env : Process → Text → Text
unfolding trim_space is_env_name
resolve_env os v = elim (trim_space v) [
  | [] ↦ []
  | b ∷ name ↦ if b == b'$' && is_env_name name then os.getenv name else b ∷ name
]

-- expandPath.
unfoldable pub expand_path : Process → Text → Text
unfolding trim_space is_blank text_eq has_prefix join expand
expand_path os path =
    let p = trim_space path in
    let expanded = expand os.getenv p in
    if is_blank p then p else elim os.user_home_dir [
      | none ↦ expanded
      | some home ↦
          if text_eq p (ascii "~")
          then home
          else if has_prefix p (ascii "~/")
          then join home (drop 2 p)
          else expanded
    ]
