-- ===== src/Api/Health.antt =====
-- `_health` of lambda_function.py: the health report of a vehicle, check by check.
pub mod Charges
pub mod Status
use Prim.Native.String.{◌++◌}
use mathlib.Core.List
use connected_vehicle_health.Prelude.{
  ℕ, ◌+◌, ◌*◌, ◌/◌, min, String, Bool, true, false, not, ◌&&◌, ◌||◌, Option, none, some, List, [],
  ◌∷◌, length, leb, ltb, ◌==◌, str_eq, if◌then◌else◌,
}
use connected_vehicle_health.Prelude.Int.{ℤ, pos, negsuc, ◌-ℤ◌, at_least_zero, ltb_ℤ}
use connected_vehicle_health.Json.{
  Value, Fields, Items, str, num, arr, nil, cons, get, get_or, py_str,
}
use connected_vehicle_health.Api.Values.{Numbers, number, number_field, put}
use connected_vehicle_health.Api.PyText.{Unicode, upper}
use connected_vehicle_health.Api.Dtc.{valid_dtc_codes, contains}

-- The local variables `score`, `status` and `warnings`.
pub record Checkup : Type 0 where
  pub score : ℤ
  pub status : String
  pub warnings : List String

abbrev pub fine : Checkup
fine = record { score = pos 100; status = "ONLINE"; warnings = [] }

-- `score -= n` and `warnings.append(text)`
unfoldable pub warn : ℕ → String → Checkup → Checkup
warn n text h = record h { score = h.score -ℤ pos n; warnings = List.◌++◌ h.warnings (text ∷ []) }

-- `_received_ms`, after `int(record.get("received_at", 0))`; `none` is its error.
unfoldable pub received_ms : Option ℤ → ℤ
received_ms none = pos 0
received_ms (some (negsuc n)) = negsuc n
received_ms (some (pos n)) = if ltb 0 n && ltb n 100000000000 then pos (n * 1000) else pos n

-- `age_seconds`, in milliseconds of the clock; the division by 1000 drops the fraction.
unfoldable pub age_seconds : ℕ → ℤ → Option ℕ
age_seconds now_ms (pos n) =
    if n == 0 then none else some (at_least_zero (pos now_ms -ℤ pos n) / 1000)
age_seconds now_ms (negsuc n) = some (at_least_zero (pos now_ms -ℤ negsuc n) / 1000)

unfoldable pub check_age : Option ℕ → Checkup → Checkup
unfolding warn
check_age none h = record (warn 30 "Missing receive timestamp" h) { status = "UNKNOWN" }
check_age (some age) h =
    if ltb 60 age
    then record (warn 40 "No telemetry for more than 60 seconds" h) { status = "OFFLINE" }
    else if ltb 15 age
    then record (warn 15 "Telemetry is stale" h) { status = "STALE" }
    else h

-- The last four lines before the result.
unfoldable pub clamp_score : ℤ → ℕ
clamp_score score = min 100 (at_least_zero score)

unfoldable pub level_of : ℕ → String
level_of score =
    if leb 90 score
    then "GOOD"
    else if leb 70 score
    then "WARNING"
    else if leb 40 score
    then "DEGRADED"
    else "CRITICAL"

-- `dict.fromkeys(dtcs)`, from the codes kept so far.
unfoldable pub dedupe : List String → List String → List String
unfolding contains
dedupe kept [] = kept
dedupe kept (c ∷ cs) = dedupe (if contains c kept then kept else List.◌++◌ kept (c ∷ [])) cs

unfoldable pub check_link : String → Checkup → Checkup
unfolding warn
check_link link_state h =
    if str_eq link_state "OFFLINE"
    then record (warn 25 "Vehicle OBD link offline" h) { status = "OFFLINE" }
    else if str_eq link_state "STALE"
    then record (warn 10 "Vehicle OBD data stale" h) { status = "STALE" }
    else h

-- `link_state or status`
unfoldable pub link_or_status : String → String → String
link_or_status link_state status = if str_eq link_state "" then status else link_state

pub record HealthReport : Type 0 where
  pub status : String
  pub health_score : ℕ
  pub health_level : String
  pub last_seen_seconds : Option ℕ
  pub warnings : List String
  pub dtc_codes : List String
  pub vehicle_link_state : String

module _ (A : Numbers) where
  open A use {Num, decimal, lt, add, abs, show_count}

  unfoldable pub check_coolant : Option Num → Checkup → Checkup
  unfolding warn
  check_coolant none h = h
  check_coolant (some coolant) h =
      if lt (decimal 115 0) coolant
      then warn 30 "Coolant temperature critical" h
      else if lt (decimal 105 0) coolant
      then warn 15 "Coolant temperature high" h
      else h

  unfoldable pub check_fuel : Option Num → Checkup → Checkup
  unfolding warn
  check_fuel none h = h
  check_fuel (some fuel) h =
      if lt fuel (decimal 10 0)
      then warn 20 "Fuel level critical" h
      else if lt fuel (decimal 20 0)
      then warn 10 "Fuel level low" h
      else h

  unfoldable pub check_load : Option Num → Checkup → Checkup
  unfolding warn
  check_load none h = h
  check_load (some engine_load) h =
      if lt (decimal 85 0) engine_load then warn 5 "Engine load high" h else h

  -- The long trim alone, then both together.
  unfoldable pub check_trim : Option Num → Option Num → Checkup → Checkup
  unfolding warn
  check_trim short none h = h
  check_trim none (some long) h =
      if lt (decimal 25 0) (abs long) then warn 10 "Long-term fuel trim outside ±25%" h else h
  check_trim (some short) (some long) h =
      if lt (decimal 25 0) (abs long)
      then warn 10 "Long-term fuel trim outside ±25%" h
      else if lt (decimal 25 0) (abs (add short long))
      then warn 5 "Combined fuel trim outside ±25%" h
      else h

  unfoldable pub check_voltage : Option Num → Option Num → Checkup → Checkup
  unfolding warn
  check_voltage none rpm h = h
  check_voltage (some voltage) none h = h
  check_voltage (some voltage) (some rpm) h =
      if lt (decimal 400 0) rpm
      then (if lt voltage (decimal 125 1)
          then warn 20 "Charging voltage low while engine is running" h
          else if lt (decimal 152 1) voltage
          then warn 15 "Charging voltage high" h
          else h)
      else h

  unfoldable pub check_dtcs : List String → Checkup → Checkup
  unfolding warn
  check_dtcs [] h = h
  check_dtcs (c ∷ cs) h =
      warn (min 35 (10 + length (c ∷ cs) * 5))
        (show_count (length (c ∷ cs)) ++ " diagnostic trouble code(s) detected") h

  -- A list of texts as a value.
  unfoldable pub texts : List String → Items Num
  texts [] = nil
  texts (c ∷ cs) = cons (str c) (texts cs)

  module _ (render : Value Num → String) (u : Unicode) where
    -- The cleaned codes of one key.
    unfoldable pub codes_at : String → Fields Num → List String
    unfolding valid_dtc_codes
    codes_at key telemetry = valid_dtc_codes render u (get key telemetry)

    -- `dtcs`: the codes of the three keys, each code once.
    unfoldable pub dtc_codes_of : Fields Num → List String
    unfolding codes_at dedupe
    dtc_codes_of telemetry = dedupe [] (
        List.◌++◌ (codes_at "stored_dtc" telemetry)
          (List.◌++◌ (codes_at "pending_dtc" telemetry) (codes_at "permanent_dtc" telemetry)))

    -- What `_health` writes back into the telemetry.
    unfoldable pub clean_telemetry : Fields Num → Fields Num
    unfolding codes_at put texts
    clean_telemetry t = put "permanent_dtc" (arr (texts (codes_at "permanent_dtc" t))) (
        put "pending_dtc" (arr (texts (codes_at "pending_dtc" t)))
          (put "stored_dtc" (arr (texts (codes_at "stored_dtc" t))) t))

    unfoldable pub link_state_of : Fields Num → String
    link_state_of telemetry =
        upper u (py_str render (get_or "vehicle_link_state" (str "") telemetry))

    -- The checks in the order of the source.
    unfoldable pub checkup : Option ℕ → Fields Num → Checkup
    unfolding check_age check_coolant check_fuel check_load check_trim check_voltage check_dtcs
        check_link
    checkup age t = check_link (link_state_of t) (
        check_dtcs (dtc_codes_of t) (
          check_voltage (number_field A "control_module_voltage_v" t)
            (number_field A "engine_rpm" t)
            (check_trim (number_field A "short_fuel_trim_b1_pct" t)
              (number_field A "long_fuel_trim_b1_pct" t)
              (check_load (number_field A "engine_load_pct" t) (
                check_fuel (number_field A "fuel_level_pct" t)
                  (check_coolant (number_field A "coolant_c" t) (check_age age fine)))))))

    -- `_health(latest, telemetry)`, at the time `now_ms`; `received` is what `int` makes of the
    -- field `received_at`.
    unfoldable pub health : ℕ → Option ℤ → Fields Num → HealthReport
    unfolding checkup received_ms age_seconds clamp_score level_of link_or_status
    health now_ms received t =
        let age = age_seconds now_ms (received_ms received) in
        let done = checkup age t in
        let score = clamp_score done.score in
        record {
          status = done.status;
          health_score = score;
          health_level = level_of score;
          last_seen_seconds = age;
          warnings = done.warnings;
          dtc_codes = dtc_codes_of t;
          vehicle_link_state = link_or_status (link_state_of t) done.status;
        }
