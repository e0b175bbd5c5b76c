-- ===== src/Api/Maintenance/Quality.antt =====
-- The diagnostics and the data quality of `_predictive_maintenance` of lambda_function.py, lines
-- 534 to 576.
use Prim.Native.String.{◌++◌}
use connected_vehicle_health.Prelude.{
  ℕ, max, String, ◌&&◌, ◌||◌, Option, List, [], ◌∷◌, length, take, leb, ◌==◌, str_eq, if◌then◌else◌,
}
use connected_vehicle_health.Api.Values.{Numbers}
use connected_vehicle_health.Api.Maintenance.{
  Condition, insufficient_data, normal, observe, service_soon, inspect_now, Finding, finding,
}
use connected_vehicle_health.Api.Maintenance.Systems.{or_zero}

-- `", ".join(codes)`
unfoldable pub join_comma : List String → String
join_comma [] = ""
join_comma (c ∷ []) = c
join_comma (c ∷ d ∷ cs) = c ++ (", " ++ join_comma (d ∷ cs))

unfoldable pub dtc_status : List String → Condition
dtc_status dtcs =
    if leb 3 (length dtcs) then inspect_now else if length dtcs == 0 then normal else service_soon

unfoldable pub dtc_action : List String → String
dtc_action [] = "Continue read-only diagnostic monitoring."
dtc_action (_ ∷ _) =
    "Record freeze-frame data and arrange diagnosis; do not clear codes before inspection."

-- `link_state` is in upper case, `requests` is `total_requests`.
unfoldable pub data_action : Condition → String
data_action inspect_now = "Inspect the OBD connector, ignition state, CAN link and client power."
data_action service_soon = "Inspect the OBD connector, ignition state, CAN link and client power."
data_action observe = "Watch connector stability on the next drive."
data_action _ = "No data-quality action required."

module _ (A : Numbers) where
  open A use {Num, decimal, lt, le, add, mul, div, is_zero, show_fixed, show_int, show_count}

  unfoldable pub dtc_evidence : List String → String
  unfolding join_comma
  dtc_evidence [] = "No stored, pending or permanent DTCs were reported."
  dtc_evidence (c ∷ cs) =
      show_count (length (c ∷ cs)) ++ (" active code(s): " ++ (join_comma (take 5 (c ∷ cs)) ++ "."))

  unfoldable pub diagnostics : List String → ℕ → Finding
  unfolding finding dtc_status dtc_evidence dtc_action
  diagnostics dtcs records =
      finding "diagnostics" "Diagnostics" (dtc_status dtcs) (dtc_evidence dtcs) (dtc_action dtcs)
        (max 1 records)

  -- `errors / total_requests if total_requests else 0`
  unfoldable pub error_rate : Num → Num → Num
  error_rate errors requests = if is_zero requests then decimal 0 0 else div errors requests

  unfoldable pub data_status : String → Num → Num → ℕ → Condition
  unfolding error_rate
  data_status link_state errors requests records =
      if str_eq link_state "OFFLINE"
      then inspect_now
      else if str_eq link_state "STALE"
          || le (decimal 20 0) requests && lt (decimal 10 2) (error_rate errors requests)
      then service_soon
      else if le (decimal 20 0) requests && lt (decimal 3 2) (error_rate errors requests)
      then observe
      else if records == 0
      then insufficient_data
      else normal

  unfoldable pub data_evidence : String → Num → Num → String
  unfolding error_rate
  data_evidence link_state errors requests =
      "OBD link="
      ++ (link_state
          ++ ("; request error rate="
              ++ (show_fixed 1 (mul (error_rate errors requests) (decimal 100 0))
                  ++ ("% (" ++ (show_int errors ++ ("/" ++ (show_int requests ++ ").")))))))

  unfoldable pub data_quality : String → Option Num → Option Num → ℕ → Finding
  unfolding finding or_zero data_status data_evidence data_action
  data_quality link_state error_count success_count records =
      let errors = or_zero is_zero (decimal 0 0) error_count in
      let requests = add errors (or_zero is_zero (decimal 0 0) success_count) in
      let status = data_status link_state errors requests records in
      finding "data_quality" "OBD data quality" status (data_evidence link_state errors requests)
        (data_action status) records
