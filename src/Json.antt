-- ===== src/Json.antt =====
-- The values that `json.loads` gives, and Python's `str` and `dict.get` on them.
-- A number is of an abstract type: the code under gateway/ only ever prints one.
use connected_vehicle_health.Prelude.{String, Bool, Option, none, some, str_eq, if◌then◌else◌}

mutual
  pub data Value (N : Type 0) : Type 0 where
    null : Value N
    bool : Bool → Value N
    num : N → Value N
    str : String → Value N
    arr : Items N → Value N
    obj : Fields N → Value N

  pub data Items (N : Type 0) : Type 0 where
    nil : Items N
    cons : Value N → Items N → Items N

  -- A dict, in the order of its keys.
  pub data Fields (N : Type 0) : Type 0 where
    end : Fields N
    field : String → Value N → Fields N → Fields N

module _ {N : Type 0} where
  unfoldable pub get : String → Fields N → Option (Value N)
  get k end = none
  get k (field j v fs) = if str_eq j k then some v else get k fs

  -- `value.get(key, default)`
  unfoldable pub get_or : String → Value N → Fields N → Value N
  unfolding get
  get_or k d fs = elim (get k fs) [ none ↦ d | some v ↦ v ]

  -- `str(value)`: a text is itself, and `render` stands for what Python prints for the others.
  unfoldable pub py_str : (Value N → String) → Value N → String
  py_str render (str s) = s
  py_str render v = render v

  -- `isinstance(value, dict)`
  unfoldable pub as_dict : Value N → Option (Fields N)
  as_dict (obj fs) = some fs
  as_dict _ = none
