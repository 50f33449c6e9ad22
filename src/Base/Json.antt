-- ===== src/Base/Json.antt =====
-- The values that `json.loads` returns. An integer carries its sign; a float that is finite is
-- the number `mantissa * 2 ^ exponent` that Python's double stands for.
pub mod Equality
use Prim.Native.Nat.{ℕ}
use Prim.Native.String.{String}
use mathlib.Core.Bool.{Bool}
use mathlib.Core.Option.{Option, none, some}
use mathlib.Core.List.{List, [], ◌∷◌}
use text.Mathlib.Text.{◌==◌}
use grepglint.Base.Tests.{if◌then◌else◌}

-- `negsuc n` is -(n + 1).
pub data ℤ : Type 0 where
  pos : ℕ → ℤ
  negsuc : ℕ → ℤ

pub data Float : Type 0 where
  finite : (mantissa exponent : ℤ) → Float
  infinity : (negative : Bool) → Float
  nan : Float

mutual
  pub data Value : Type 0 where
    null : Value
    bool : Bool → Value
    int : ℤ → Value
    float : Float → Value
    str : String → Value
    list : Items → Value
    dict : Fields → Value

  pub data Items : Type 0 where
    nil : Items
    cons : Value → Items → Items

  pub data Fields : Type 0 where
    no_fields : Fields
    field : String → Value → Fields → Fields

-- The fields of a JSON object have different names, so the first is the only one.
abbrev pub get : String → Fields → Option Value
get k no_fields = none
get k (field j v m) = if j == k then some v else get k m

abbrev pub values : Items → List Value
values nil = []
values (cons v vs) = v ∷ values vs

abbrev pub names : Fields → List String
names no_fields = []
names (field k v m) = k ∷ names m

-- `value.get(key)` where `value` is a dict, and `none` elsewhere.
abbrev pub get_in : String → Value → Option Value
get_in k (dict m) = get k m
get_in k _ = none

abbrev pub as_text : Option Value → Option String
as_text (some (str s)) = some s
as_text _ = none

-- `type(value) is int`: Python's Booleans are not.
abbrev pub as_int : Option Value → Option ℤ
as_int (some (int i)) = some i
as_int _ = none
