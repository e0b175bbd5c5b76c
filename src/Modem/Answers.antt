-- ===== src/Modem/Answers.antt =====
-- The static methods of modem_manager.py that read the modem's answers, and `_set_signal` and
-- `_set_registration`. `int_of` is Python's `int` of a text, and `none` its ValueError.
use connected_vehicle_health.Prelude.{
  String, Bool, false, ◌||◌, Option, none, some, List, [], ◌∷◌, ◌==◌, str_eq, if◌then◌else◌,
}
use connected_vehicle_health.Prelude.Int.{ℤ, pos, ◌+ℤ◌, ◌-ℤ◌}
use connected_vehicle_health.Text.{strip}
use connected_vehicle_health.Text.Search.{starts_with, cut, split_on, without}
use connected_vehicle_health.Modem.{ModemManager}

-- `response.replace("\r", "").split("\n")`
unfoldable pub lines_of : String → List String
unfolding split_on without
lines_of response = split_on "\n" (without "\r" response)

-- What follows the first colon; each prefix that is looked for has one.
unfoldable pub after_first_colon : String → String
unfolding cut strip
after_first_colon line = elim (cut ":" line) [ none ↦ "" | some (name, value) ↦ strip value ]

-- The loop of `_after_colon`.
unfoldable pub first_value : String → List String → String
unfolding starts_with after_first_colon
first_value prefix [] = "UNKNOWN"
first_value prefix (line ∷ lines) =
    let rest = first_value prefix lines in
    if starts_with prefix line then after_first_colon line else rest

-- `_after_colon`
unfoldable pub after_colon : String → String → String
unfolding first_value lines_of
after_colon response prefix = first_value prefix (lines_of response)

-- `text.split(at, 1)[0]`
unfoldable pub first_field : String → String
unfolding cut
first_field text = elim (cut "," text) [ none ↦ text | some (first, rest) ↦ first ]

-- `_operator`: the text between the first two quotation marks, or after the only one.
unfoldable pub operator_of : String → String
unfolding cut
operator_of response = elim (cut "\"" response) [
  | none ↦ "UNKNOWN"
  | some (before, after) ↦ elim (cut "\"" after) [ none ↦ after | some (name, rest) ↦ name ]
]

-- The loop of `_identity`.
unfoldable pub first_other : List String → String
unfolding strip
first_other [] = "A7670"
first_other (line ∷ lines) =
    let rest = first_other lines in
    if str_eq (strip line) "ATI" || str_eq (strip line) "OK" || str_eq (strip line) ""
    then rest
    else strip line

-- `_identity`
unfoldable pub identity_of : String → String
unfolding first_other lines_of
identity_of response = first_other (lines_of response)

-- A text that is not empty.
unfoldable pub non_empty : String → Option String
non_empty text = if str_eq text "" then none else some text

-- The second part, without the spaces around it.
unfoldable pub second_field : List String → Option String
unfolding strip non_empty
second_field [] = none
second_field (first ∷ []) = none
second_field (first ∷ second ∷ rest) = non_empty (strip second)

-- `_ip_address`
unfoldable pub ip_address_of : String → Option String
unfolding after_colon without split_on second_field
ip_address_of response =
    second_field (split_on "," (without "\"" (after_colon response "+CGPADDR:")))

-- The field of the status: the second, or the only one.
unfoldable pub status_field : List String → String
status_field [] = ""
status_field (first ∷ []) = first
status_field (first ∷ second ∷ rest) = second

-- `status in (1, 5)`
unfoldable pub is_registered : Option ℤ → Bool
is_registered (some (pos n)) = n == 1 || n == 5
is_registered _ = false

-- `2 * csq - 113`, or `None` for 99.
unfoldable pub dbm_of : ℤ → Option ℤ
unfolding ◌+ℤ◌ ◌-ℤ◌
dbm_of (pos n) = if n == 99 then none else some (pos n +ℤ pos n -ℤ pos 113)
dbm_of csq = some (csq +ℤ csq -ℤ pos 113)

module _ (int_of : String → Option ℤ) where
  -- `_set_signal`
  unfoldable pub set_signal : String → ModemManager → ModemManager
  unfolding first_field dbm_of
  set_signal value m = elim (int_of (first_field value)) [
    | none ↦ record m { signal_csq = none; signal_dbm = none }
    | some csq ↦ record m { signal_csq = some csq; signal_dbm = dbm_of csq }
  ]

  -- `_set_registration`
  unfoldable pub set_registration : String → ModemManager → ModemManager
  unfolding after_colon split_on status_field is_registered
  set_registration response m =
      let status = int_of (status_field (split_on "," (after_colon response "+CEREG:"))) in
      record m { registration = if is_registered status then "REGISTERED" else "NOT REGISTERED" }
