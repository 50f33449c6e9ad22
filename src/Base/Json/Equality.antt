-- ===== src/Base/Json/Equality.antt =====
-- Python's `==` on the values that `json.loads` returns: numbers are compared by value, so that
-- `True == 1 == 1.0`, lists item by item, and dicts without regard to order.
use grepglint.Base.Tests.{eqb}
use grepglint.Base.Json.{
  Value, null, bool, int, float, str, list, dict, Items, nil, cons, Fields, no_fields, field, get,
  ℤ, pos, negsuc, Float, finite, infinity,
}
use Prim.Native.Nat.{ℕ, ◌+◌, ◌*◌, ◌^◌}
use mathlib.Core.Bool.{Bool, true, false, ◌&&◌, ◌||◌, xor, not}
use mathlib.Core.Option.{Option, none, some}
use text.Mathlib.Text.{◌==◌}

size : ℤ → ℕ
size (pos n) = n
size (negsuc n) = n + 1

is_negative : ℤ → Bool
is_negative (pos n) = false
is_negative (negsuc n) = true

-- The powers of two above and below the line of `m * 2 ^ e`.
up : ℤ → ℕ
up (pos e) = e
up (negsuc e) = 0

down : ℤ → ℕ
down (pos e) = 0
down (negsuc e) = e + 1

equal_float : Float → Float → Bool
unfolding size is_negative up down
equal_float (finite m e) (finite n f) =
    let a = size m * 2 ^ (up e + down f) in
    let b = size n * 2 ^ (up f + down e) in
    eqb a b && (eqb a 0 || not (xor (is_negative m) (is_negative n)))
equal_float (infinity a) (infinity b) = not (xor a b)
equal_float _ _ = false

-- A number as a double's value; an integer of any size is `i * 2 ^ 0`.
number : Value → Option Float
number (bool true) = some (finite (pos 1) (pos 0))
number (bool false) = some (finite (pos 0) (pos 0))
number (int i) = some (finite i (pos 0))
number (float f) = some f
number _ = none

equal_number : Value → Value → Bool
unfolding number equal_float
equal_number v w = elim (number v) [
  | none ↦ false
  | some a ↦ elim (number w) [ none ↦ false | some b ↦ equal_float a b ]
]

count_fields : Fields → ℕ
count_fields no_fields = 0
count_fields (field k v m) = count_fields m + 1

unfoldable mutual
  unfolding equal_number count_fields

  pub equal : Value → Value → Bool
  equal null null = true
  equal (str s) (str t) = s == t
  equal (list a) (list b) = equal_items a b
  equal (dict a) (dict b) = eqb (count_fields a) (count_fields b) && equal_fields a b
  equal v w = equal_number v w

  pub equal_items : Items → Items → Bool
  equal_items nil nil = true
  equal_items (cons v vs) (cons w ws) = equal v w && equal_items vs ws
  equal_items _ _ = false

  -- Every field of the first has an equal one in the second.
  pub equal_fields : Fields → Fields → Bool
  equal_fields no_fields b = true
  equal_fields (field k v a) b = elim (get k b) [
    | none ↦ false
    | some w ↦ equal v w && equal_fields a b
  ]
