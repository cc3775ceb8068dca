-- ===== src/Go/Value.antt =====
-- A value of Go's `any`, as the YAML and JSON decoders build it.
use my_symphony.Base.{ℕ, Bool, true, false, List, [], ◌∷◌, Option, none, some, if◌then◌else◌}
use my_symphony.Base.{ℤ}
use my_symphony.Go.Utf8.{Text, text_eq}

-- `float m k` is the float64 m / 2 ^ k; `unread` is any value of a type that the program does not
-- test for (an infinity, a NaN, a time, an unsigned number).
mutual
  pub data Value : Type 0 where
    null : Value
    boolean : Bool → Value
    int : ℤ → Value
    float : ℤ → ℕ → Value
    str : Text → Value
    arr : Values → Value
    object : Fields → Value
    unread : Value

  pub data Values : Type 0 where
    nil : Values
    cons : Value → Values → Values

  pub data Fields : Type 0 where
    end : Fields
    field : Text → Value → Fields → Fields

-- `v == nil`.
abbrev pub is_null : Value → Bool
is_null null = true
is_null _ = false

abbrev pub values : Values → List Value
values nil = []
values (cons v vs) = v ∷ values vs

abbrev pub fields : Fields → List (Text × Value)
fields end = []
fields (field k v fs) = (k, v) ∷ fields fs

-- `m[k]`, `nil` where the key is missing.
unfoldable pub lookup : Text → Fields → Option Value
lookup k end = none
lookup k (field j v fs) = if text_eq j k then some v else lookup k fs

unfoldable pub index : Text → Fields → Value
index k end = null
index k (field j v fs) = if text_eq j k then v else index k fs
