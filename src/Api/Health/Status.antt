-- ===== src/Api/Health/Status.antt =====
-- The connection state in the report of `_health` of lambda_function.py.
use connected_vehicle_health.Prelude.{
  ℕ, ◌≡◌, refl, ap, ◌∙◌, String, Option, none, some, List, [], ◌∷◌, arith, ltb, str_eq,
  if◌then◌else◌,
}
use connected_vehicle_health.Prelude.Int.{ℤ}
use connected_vehicle_health.Json.{Value, Fields}
use connected_vehicle_health.Api.Values.{Numbers, number_field}
use connected_vehicle_health.Api.PyText.{Unicode}
use connected_vehicle_health.Api.Health.{
  Checkup, fine, check_age, check_coolant, check_fuel, check_load, check_trim, check_voltage,
  check_dtcs, check_link, checkup, dtc_codes_of, link_state_of, health, age_seconds, received_ms,
}

-- The state by the age of the last record.
abbrev pub status_of_age : Option ℕ → String
status_of_age none = "UNKNOWN"
status_of_age (some age) =
    if ltb 60 age then "OFFLINE" else if ltb 15 age then "STALE" else "ONLINE"

-- The state that the gateway reports for the vehicle's link comes first.
abbrev pub reported_status : String → Option ℕ → String
reported_status link_state age =
    if str_eq link_state "OFFLINE"
    then "OFFLINE"
    else if str_eq link_state "STALE"
    then "STALE"
    else status_of_age age

age-status : (age : Option ℕ) → (check_age age fine).status ≡ status_of_age age
unfolding check_age
age-status none = refl
age-status (some age) = ground arith

link-status :
    (link_state : String) (h : Checkup)
    → (check_link link_state h).status ≡ (
        if str_eq link_state "OFFLINE"
        then "OFFLINE"
        else if str_eq link_state "STALE"
        then "STALE"
        else h.status)
unfolding check_link
link-status link_state h = ground arith

module _ (A : Numbers) (h : Checkup) where
  open A use {Num}

  coolant-status : (o : Option Num) → (check_coolant A o h).status ≡ h.status
  unfolding check_coolant
  coolant-status o = ground arith

  fuel-status : (o : Option Num) → (check_fuel A o h).status ≡ h.status
  unfolding check_fuel
  fuel-status o = ground arith

  load-status : (o : Option Num) → (check_load A o h).status ≡ h.status
  unfolding check_load
  load-status o = ground arith

  trim-status : (s l : Option Num) → (check_trim A s l h).status ≡ h.status
  unfolding check_trim
  trim-status s l = ground arith

  voltage-status : (v r : Option Num) → (check_voltage A v r h).status ≡ h.status
  unfolding check_voltage
  voltage-status v r = ground arith

  dtcs-status : (codes : List String) → (check_dtcs A codes h).status ≡ h.status
  unfolding check_dtcs
  dtcs-status [] = refl
  dtcs-status (c ∷ cs) = refl

module _ (A : Numbers) (render : Value (A.Num) → String) (u : Unicode) where
  open A use {Num}

  -- The state of the report is the link state of the telemetry if that is OFFLINE or STALE, and
  -- else follows from the age of the last record alone: UNKNOWN without one, OFFLINE above 60
  -- seconds, STALE above 15, ONLINE up to 15. No reading of a sensor changes it.
  pub status-health :
      (now_ms : ℕ) (received : Option ℤ) (t : Fields Num)
      → (health A render u now_ms received t).status
        ≡ reported_status (link_state_of A render u t) (age_seconds now_ms (received_ms received))
  unfolding health checkup
  status-health now_ms received t =
      let age = age_seconds now_ms (received_ms received) in
      link-status (link_state_of A render u t) _
      ∙ ap
          (λ s.
            if str_eq (link_state_of A render u t) "OFFLINE"
            then "OFFLINE"
            else if str_eq (link_state_of A render u t) "STALE"
            then "STALE"
            else s)
          (dtcs-status A _ (dtc_codes_of A render u t)
            ∙ voltage-status A _ (number_field A "control_module_voltage_v" t)
                (number_field A "engine_rpm" t)
            ∙ trim-status A _ (number_field A "short_fuel_trim_b1_pct" t)
                (number_field A "long_fuel_trim_b1_pct" t)
            ∙ load-status A _ (number_field A "engine_load_pct" t)
            ∙ fuel-status A _ (number_field A "fuel_level_pct" t)
            ∙ coolant-status A _ (number_field A "coolant_c" t)
            ∙ age-status age)
