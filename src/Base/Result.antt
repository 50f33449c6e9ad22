-- ===== src/Base/Result.antt =====
-- Python's exceptions as values. `probe code` is `ProbeError(code)` of
-- benchmarks/_codex_capture.py, whose message is a public diagnostic code, and `invalid message` is
-- `ValueError(message)`; the others are the built-in exceptions that the modelled code can meet.
use Prim.Native.String.{String}
use mathlib.Core.Path.{◌≡◌, refl}
use mathlib.Core.Bool.{Bool, true, false}

pub data Exception : Type 0 where
  probe : String → Exception
  invalid : String → Exception
  key_error type_error value_error os_error subprocess_error stop_iteration : Exception

pub data Result {κ} (V : Type κ) : Type κ where
  err : Exception → Result V
  ok : V → Result V

infixl 5 ◌>>=◌ ◌>>◌
abbrev pub ◌>>=◌ {κ ι} : {V : Type κ} {W : Type ι} → Result V → (V → Result W) → Result W
err raised >>= next = err raised
ok value >>= next = next value

-- `require(value, message)` of benchmarks/_score_metrics.py.
abbrev pub require : Bool → String → Result (Unit {0})
require false message = err (probe message)
require true message = ok tt

-- `require(condition, message)` of scripts/bootstrap.py.
abbrev pub ensure : Bool → String → Result (Unit {0})
ensure false message = err (invalid message)
ensure true message = ok tt

abbrev pub ◌>>◌ {κ} : {W : Type κ} → Result (Unit {0}) → Result W → Result W
first >> second = first >>= λ done. second

pub >>=-eq-ok {κ ι} :
    {V : Type κ} {W : Type ι} (first : Result V) (next : V → Result W) {out : W}
    → (first >>= next) ≡ ok out
    → (value : V) × (first ≡ ok value) × (next value ≡ ok out)
>>=-eq-ok (err raised) next h = cc
>>=-eq-ok (ok value) next h = (value, refl, h)

pub require-eq-ok : (b : Bool) (message : String) {u : Unit} → require b message ≡ ok u → b ≡ true
require-eq-ok true message h = refl
require-eq-ok false message h = cc

pub ok-injective {κ} : {V : Type κ} {v w : V} → ok v ≡ ok w → v ≡ w
ok-injective h = cc

pub ensure-eq-ok : (b : Bool) (message : String) {u : Unit} → ensure b message ≡ ok u → b ≡ true
ensure-eq-ok true message h = refl
ensure-eq-ok false message h = cc
