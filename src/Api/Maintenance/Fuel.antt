-- ===== src/Api/Maintenance/Fuel.antt =====
-- The fuel and air system of `_predictive_maintenance` of lambda_function.py, lines 499 to 532.
use Prim.Native.String.{◌++◌}
use connected_vehicle_health.Prelude.{
  ℕ, String, Bool, ◌||◌, Option, none, some, ◌==◌, if◌then◌else◌,
}
use connected_vehicle_health.Api.Values.{Numbers}
use connected_vehicle_health.Api.Maintenance.{
  Condition, insufficient_data, normal, observe, service_soon, Finding, finding,
}
use connected_vehicle_health.Api.Maintenance.Systems.{holds, shown}

module _ (A : Numbers) where
  open A use {Num, decimal, lt, add, abs, show_fixed, show}

  unfoldable pub combined_trim : Option Num → Option Num → Option Num
  combined_trim (some short) (some long) = some (add short long)
  combined_trim _ _ = none

  unfoldable pub beyond : Num → Option Num → Bool
  unfolding holds
  beyond bound trim = holds (λ t. lt bound (abs t)) trim

  unfoldable pub fuel_status : Option Num → Option Num → ℕ → Condition
  unfolding combined_trim beyond
  fuel_status short long trim_samples =
      if beyond (decimal 25 0) long || beyond (decimal 25 0) (combined_trim short long)
      then service_soon
      else if beyond (decimal 15 0) long || beyond (decimal 15 0) (combined_trim short long)
      then observe
      else if trim_samples == 0
      then insufficient_data
      else normal

  unfoldable pub fuel_evidence : Option Num → Option Num → Condition → String
  unfolding shown combined_trim
  fuel_evidence short long service_soon =
      "STFT=" ++ (shown show short ++ ("%, LTFT=" ++ (shown show long ++ "%.")))
  fuel_evidence short long observe = elim (combined_trim short long) [
    | none ↦ "LTFT is " ++ (shown (show_fixed 1) long ++ "%.")
    | some combined ↦
        "Fuel-trim deviation is elevated; combined trim is " ++ (show_fixed 1 combined ++ "%.")
  ]
  fuel_evidence short long insufficient_data = "Fuel-trim PIDs have not been observed."
  fuel_evidence short long _ =
      "Available fuel-trim values are within the configured observation band."

  unfoldable pub fuel_action : Condition → String
  fuel_action service_soon =
      "Check for intake leaks, fuel-pressure issues and sensor bias with a qualified scan tool."
  fuel_action observe = "Compare hot-idle and steady-cruise trims before scheduling inspection."
  fuel_action insufficient_data = "Collect STFT and LTFT after closed-loop operation begins."
  fuel_action _ = "Continue trend monitoring."

  -- `trim_samples` is the larger number of the samples of the two trims.
  unfoldable pub fuel_air : Option Num → Option Num → ℕ → Finding
  unfolding finding fuel_status fuel_evidence fuel_action
  fuel_air short long trim_samples =
      let status = fuel_status short long trim_samples in
      finding "fuel_air" "Fuel & air" status (fuel_evidence short long status) (fuel_action status)
        trim_samples
