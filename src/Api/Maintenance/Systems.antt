-- ===== src/Api/Maintenance/Systems.antt =====
-- The five systems that `_predictive_maintenance` of lambda_function.py judges.
use Prim.Native.String.{◌++◌}
use connected_vehicle_health.Prelude.{
  String, Bool, true, false, ◌&&◌, ◌||◌, Option, none, some, List, length, leb, if◌then◌else◌,
}
use connected_vehicle_health.Prelude.Int.{ℤ}
use connected_vehicle_health.Api.Values.{Numbers}
use connected_vehicle_health.Api.Maintenance.{
  Condition, insufficient_data, normal, observe, service_soon, inspect_now, Finding, finding,
  count_if, rise,
}

module _ {N : Type 0} where
  -- `x is not None and test(x)`
  unfoldable pub holds : (N → Bool) → Option N → Bool
  holds test none = false
  holds test (some x) = test x

  -- `x is not None`
  unfoldable pub is_some : Option N → Bool
  is_some none = false
  is_some (some x) = true

  -- `x or zero`
  unfoldable pub or_zero : (N → Bool) → N → Option N → N
  or_zero is_zero zero_value none = zero_value
  or_zero is_zero zero_value (some x) = if is_zero x then zero_value else x

  -- The text of a value that is there.
  unfoldable pub shown : (N → String) → Option N → String
  shown show none = "N/A"
  shown show (some x) = show x

module _ (A : Numbers) where
  open A use {
    Num, decimal, lt, le, add, sub, mul, div, abs, is_zero, show_fixed, show_signed, show, show_int,
    show_count,
  }

  -- Lines 436 to 466: the values of the coolant temperature, oldest first, and the latest one.
  unfoldable pub cooling_status : List (ℤ × Num) → Option Num → Condition
  unfolding holds is_some count_if rise
  cooling_status values coolant =
      if holds (λ c. lt (decimal 115 0) c) coolant
      then inspect_now
      else if leb 3 (count_if (λ v. lt (decimal 105 0) v) values)
      then service_soon
      else if holds
          (λ c.
            lt (decimal 105 0) c
            || lt (decimal 95 0) c && le (decimal 10 0) (rise sub (decimal 0 0) values))
          coolant
      then observe
      else if is_some coolant
      then normal
      else insufficient_data

  unfoldable pub cooling_evidence : List (ℤ × Num) → Option Num → Condition → String
  unfolding shown count_if rise
  cooling_evidence values coolant inspect_now =
      "Coolant is " ++ (shown (show_fixed 1) coolant ++ " C, above the 115 C critical threshold.")
  cooling_evidence values coolant service_soon =
      show_count (count_if (λ v. lt (decimal 105 0) v) values)
      ++ (" of " ++ (show_count (length values) ++ " recent samples exceeded 105 C."))
  cooling_evidence values coolant observe =
      "Coolant is "
      ++ (shown (show_fixed 1) coolant
          ++ (" C; recent change is " ++ (show_signed 1 (rise sub (decimal 0 0) values) ++ " C.")))
  cooling_evidence values coolant normal =
      "Latest coolant is "
      ++ (shown (show_fixed 1) coolant ++ " C with no repeated high-temperature pattern.")
  cooling_evidence values coolant insufficient_data = "No coolant samples are available yet."

  unfoldable pub cooling_action : Condition → String
  cooling_action inspect_now =
      "Stop safely if temperature continues rising and arrange immediate cooling-system inspection."
  cooling_action service_soon =
      "Inspect coolant level, leaks, radiator airflow, thermostat and fan operation."
  cooling_action observe =
      "Monitor the next drive and inspect if the temperature repeats or continues rising."
  cooling_action normal = "Continue normal monitoring."
  cooling_action insufficient_data = "Collect live OBD data with the engine warm."

  unfoldable pub cooling : List (ℤ × Num) → Option Num → Finding
  unfolding finding cooling_status cooling_evidence cooling_action
  cooling values coolant =
      let status = cooling_status values coolant in
      finding "cooling" "Cooling system" status (cooling_evidence values coolant status)
        (cooling_action status) (length values)

  -- Lines 468 to 497. The band 12.5 to 15.2 V, and the one whose edges ask for an inspection.
  unfoldable pub out_of_band : Num → Bool
  out_of_band v = lt v (decimal 125 1) || lt (decimal 152 1) v

  unfoldable pub far_out_of_band : Num → Bool
  far_out_of_band v = lt v (decimal 118 1) || lt (decimal 155 1) v

  unfoldable pub engine_running : Option Num → Bool
  unfolding holds
  engine_running rpm = holds (λ r. lt (decimal 400 0) r) rpm

  unfoldable pub charging_status : List (ℤ × Num) → Option Num → Option Num → Condition
  unfolding holds is_some count_if out_of_band far_out_of_band engine_running
  charging_status values voltage rpm =
      if engine_running rpm && holds far_out_of_band voltage
      then inspect_now
      else if engine_running rpm && leb 3 (count_if out_of_band values)
      then service_soon
      else if engine_running rpm && holds out_of_band voltage
      then observe
      else if is_some voltage
      then normal
      else insufficient_data

  unfoldable pub charging_evidence : List (ℤ × Num) → Option Num → Option Num → Condition → String
  unfolding shown count_if out_of_band
  charging_evidence values voltage rpm inspect_now =
      "Module voltage is "
      ++ (shown (show_fixed 2) voltage
          ++ (" V while engine speed is " ++ (shown (show_fixed 0) rpm ++ " rpm.")))
  charging_evidence values voltage rpm service_soon =
      show_count (count_if out_of_band values)
      ++ (" of " ++ (show_count (length values) ++ " voltage samples were outside 12.5-15.2 V."))
  charging_evidence values voltage rpm observe =
      "Latest running voltage is " ++ (shown (show_fixed 2) voltage ++ " V.")
  charging_evidence values voltage rpm normal =
      "Latest module voltage is "
      ++ (shown (show_fixed 2) voltage ++ " V; no persistent charging pattern detected.")
  charging_evidence values voltage rpm insufficient_data =
      "No control-module voltage samples are available yet."

  unfoldable pub charging_action : Condition → String
  charging_action inspect_now =
      "Inspect the battery, alternator, belt and electrical connections promptly."
  charging_action service_soon = "Perform a battery and charging-system load test."
  charging_action observe =
      "Repeat the measurement with stable idle and electrical loads switched on."
  charging_action normal = "Continue normal monitoring."
  charging_action insufficient_data = "Collect PID 0x42 with engine off and running."

  unfoldable pub charging : List (ℤ × Num) → Option Num → Option Num → Finding
  unfolding finding charging_status charging_evidence charging_action
  charging values voltage rpm =
      let status = charging_status values voltage rpm in
      finding "charging" "Battery & charging" status (charging_evidence values voltage rpm status)
        (charging_action status) (length values)
