-- ===== src/Api/Values.antt =====
-- Python's numbers as lambda_function.py uses them, and the values of a telemetry record.
use connected_vehicle_health.Prelude.{ℕ, String, Bool, Option, none, some, str_eq, if◌then◌else◌}
use connected_vehicle_health.Prelude.Int.{ℤ}
use connected_vehicle_health.Json.{Value, Fields, bool, num, end, field, get}

-- An `int` or a `float`, with the operations and the printing that the program uses.
pub record Numbers : Type 1 where
  pub Num : Type 0
  -- the literal `n / 10 ** k`
  pub decimal : ℕ → ℕ → Num
  pub lt : Num → Num → Bool
  pub le : Num → Num → Bool
  pub add : Num → Num → Num
  pub sub : Num → Num → Num
  pub div : Num → Num → Num
  pub mul : Num → Num → Num
  pub abs : Num → Num
  -- `x == 0`
  pub is_zero : Num → Bool
  -- `f"{x:.kf}"`, and with a sign `f"{x:+.kf}"`
  pub show_fixed : ℕ → Num → String
  pub show_signed : ℕ → Num → String
  -- `str(x)` and `str(int(x))`
  pub show : Num → String
  pub show_int : Num → String
  -- `round(z / d, k)`
  pub rounded : ℤ → ℕ → ℕ → Num
  -- `str(n)` of a count
  pub show_count : ℕ → String

module _ (A : Numbers) where
  open A use {Num, decimal}

  -- `value if isinstance(value, (int, float)) else None`; a `bool` is an `int`.
  unfoldable pub number : Value Num → Option Num
  number (num n) = some n
  number (bool b) = some (if b then decimal 1 0 else decimal 0 0)
  number _ = none

  -- The same of `fields.get(name)`.
  unfoldable pub number_field : String → Fields Num → Option Num
  unfolding number get
  number_field name fields = elim (get name fields) [ none ↦ none | some v ↦ number v ]

module _ {N : Type 0} where
  -- `fields[name] = value`
  unfoldable pub put : String → Value N → Fields N → Fields N
  put k v end = field k v end
  put k v (field j w fs) = if str_eq j k then field j v fs else field j w (put k v fs)
