-- ===== src/Api/Maintenance/Overall.antt =====
-- The report of `_predictive_maintenance` of lambda_function.py: the five findings, the worst of
-- them, and the time they cover.
pub mod Worst
use connected_vehicle_health.Prelude.{
  ℕ, max, String, Bool, true, false, Option, none, some, List, [], ◌∷◌, length, if◌then◌else◌,
}
use connected_vehicle_health.Prelude.Int.{ℤ, pos, ◌-ℤ◌}
use connected_vehicle_health.Json.{Value, Fields}
use connected_vehicle_health.Api.Values.{Numbers, number_field}
use connected_vehicle_health.Api.PyText.{Unicode, upper}
use connected_vehicle_health.Api.Health.{HealthReport, received_ms}
use connected_vehicle_health.Api.Maintenance.{Condition, Finding, worst, actionable, series}
use connected_vehicle_health.Api.Maintenance.Systems.{cooling, charging}
use connected_vehicle_health.Api.Maintenance.Fuel.{fuel_air}
use connected_vehicle_health.Api.Maintenance.Quality.{diagnostics, data_quality}

-- The result; its fixed texts are left out.
pub record Report (N : Type 0) : Type 0 where
  pub overall_status : Condition
  pub actionable_systems : ℕ
  pub records_evaluated : ℕ
  pub observed_minutes : N
  pub findings : List Finding

module _ {N : Type 0} (int_of : Fields N → Option ℤ) where
  -- `_received_ms(records[-1])`, after the record `newest`.
  unfoldable pub oldest_ms : Fields N → List (Fields N) → ℤ
  unfolding received_ms
  oldest_ms newest [] = received_ms (int_of newest)
  oldest_ms newest (r ∷ rs) = oldest_ms r rs

  -- `newest_ms - oldest_ms`
  unfoldable pub span_ms : List (Fields N) → ℤ
  unfolding oldest_ms received_ms
  span_ms [] = pos 0 -ℤ pos 0
  span_ms (r ∷ rs) = received_ms (int_of r) -ℤ oldest_ms r rs

module _ (A : Numbers) (loads : String → Option (Value (A.Num)))
    (int_of : Fields (A.Num) → Option ℤ) (u : Unicode) where
  open A use {Num, decimal, lt, rounded}

  -- `max(0, round((newest_ms - oldest_ms) / 60000, 1))`
  unfoldable pub minutes_of : List (Fields Num) → Num
  unfolding span_ms
  minutes_of records =
      let minutes = rounded (span_ms int_of records) 60000 1 in
      if lt (decimal 0 0) minutes then minutes else decimal 0 0

  -- The findings after the first.
  unfoldable pub other_findings : List (Fields Num) → Fields Num → HealthReport → List Finding
  unfolding series number_field charging fuel_air diagnostics data_quality
  other_findings records telemetry health =
      charging A (series A loads int_of records "control_module_voltage_v")
        (number_field A "control_module_voltage_v" telemetry)
        (number_field A "engine_rpm" telemetry)
      ∷ fuel_air A (number_field A "short_fuel_trim_b1_pct" telemetry)
          (number_field A "long_fuel_trim_b1_pct" telemetry)
          (max (length (series A loads int_of records "short_fuel_trim_b1_pct"))
            (length (series A loads int_of records "long_fuel_trim_b1_pct")))
      ∷ diagnostics A health.dtc_codes (length records)
      ∷ data_quality A (upper u health.vehicle_link_state)
          (number_field A "obd_error_count" telemetry)
          (number_field A "obd_success_count" telemetry) (length records)
      ∷ []

  unfoldable pub first_finding : List (Fields Num) → Fields Num → Finding
  unfolding series number_field cooling
  first_finding records telemetry =
      cooling A (series A loads int_of records "coolant_c") (number_field A "coolant_c" telemetry)

  -- `_predictive_maintenance(records, telemetry, health)`
  unfoldable pub predictive_maintenance : List (Fields Num) → Fields Num → HealthReport → Report Num
  unfolding first_finding other_findings worst actionable minutes_of
  predictive_maintenance records telemetry health =
      let first = first_finding records telemetry in
      let others = other_findings records telemetry health in
      record {
        overall_status = Finding.status (worst first others);
        actionable_systems = actionable (first ∷ others);
        records_evaluated = length records;
        observed_minutes = minutes_of records;
        findings = first ∷ others;
      }
