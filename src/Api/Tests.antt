-- ===== src/Api/Tests.antt =====
-- Reports of lambda_function.py on a few records, and the theorems at them.
use Prim.Native.String.{◌∷◌ as ◌∷ₛ◌, [] as []ₛ}
use connected_vehicle_health.Prelude.{
  ℕ, ◌+◌, ◌-◌, ◌*◌, ◌/◌, ◌^◌, ◌≤◌, ◌≡◌, refl, String, false, not, ◌&&◌, Option, none, some, List,
  [], ◌∷◌, length, leb, ltb, ◌==◌,
}
use connected_vehicle_health.Prelude.Int.{ℤ, pos, negsuc, ◌+ℤ◌, ◌-ℤ◌, ltb_ℤ, pos_part, neg_part}
use connected_vehicle_health.Prelude.Assoc.{lookup}
use connected_vehicle_health.Json.{
  Value, Items, Fields, num, str, arr, obj, nil, cons, end, field, get, get_or, py_str,
}
use connected_vehicle_health.Api.Values.{Numbers, number_field}
use connected_vehicle_health.Api.PyText.{Unicode, upper, strip}
use connected_vehicle_health.Api.Dtc.{is_code, contains, valid_dtc_codes}
use connected_vehicle_health.Api.Dtc.Clean.{NoRepeat, occurs, valid_dtc_codes_lem}
use connected_vehicle_health.Api.Merge.{merge}
use connected_vehicle_health.Api.Merge.Newest.{newest, newest_of_class, merge_lem}
use connected_vehicle_health.Api.Health.{
  HealthReport, health, received_ms, age_seconds, link_state_of, level_of, dtc_codes_of,
}
use connected_vehicle_health.Api.Health.Charges.{health-charges}
use connected_vehicle_health.Api.Health.Status.{reported_status, status-health}
use connected_vehicle_health.Api.Maintenance.{rank}
use connected_vehicle_health.Api.Maintenance.Overall.{Report, predictive_maintenance}
use connected_vehicle_health.Api.Maintenance.Overall.Worst.{IsWorst, predictive-maintenance-IsWorst}
use connected_vehicle_health.Api.Handler.{Settings, Query, Reply, lambda_handler}
use connected_vehicle_health.Api.Handler.Served.{Served, lambda_handler-Served}

-- Numbers as hundredths, printed as "n".
abbrev hundredths : Numbers
hundredths = record {
  Num = ℤ;
  decimal = λ n k. pos (n * 100 / 10 ^ k);
  lt = ltb_ℤ;
  le = λ a b. not (ltb_ℤ b a);
  add = λ a b. a +ℤ b;
  sub = λ a b. a -ℤ b;
  div = λ a b. pos (pos_part a * 100 / pos_part b);
  mul = λ a b. pos (pos_part a * pos_part b / 100);
  abs = λ a. pos (pos_part a + neg_part a);
  is_zero = λ a. pos_part a + neg_part a == 0;
  show_fixed = λ k a. "n";
  show_signed = λ k a. "n";
  show = λ a. "n";
  show_int = λ a. "n";
  rounded = λ z d k. pos (pos_part z * 100 / d);
  show_count = λ n. "n";
}

abbrev ascii : Unicode
ascii = record { upper_other = λ c. c ∷ₛ []ₛ; space_other = λ c. false }

abbrev render : Value ℤ → String
render v = "None"

abbrev no_json : String → Option (Value ℤ)
no_json s = none

abbrev codes : Items ℤ
codes = cons (str " p0420") (cons (str "P0420") (cons (str "P0000") (cons (str "U0100") nil)))

-- One code in two spellings, one that stands for no fault, and one more.
two_codes : valid_dtc_codes render ascii (some (arr codes)) ≡ "P0420" ∷ "U0100" ∷ []
unfolding valid_dtc_codes upper strip py_str
two_codes = refl

valid_dtc_codes_lem_example :
    ((code : String)
      → contains code (valid_dtc_codes render ascii (some (arr codes)))
        ≡ (is_code code && occurs render ascii code codes))
    × NoRepeat (valid_dtc_codes render ascii (some (arr codes)))
valid_dtc_codes_lem_example = valid_dtc_codes_lem render ascii codes

-- A hot engine under a stale link.
abbrev hot : Fields ℤ
hot = field "coolant_c" (num (pos 11600)) (field "vehicle_link_state" (str "stale") end)

abbrev hot_record : Fields ℤ
hot_record = field "data_class" (str "slow") (field "data" (obj hot) end)

abbrev cool_record : Fields ℤ
cool_record =
    field "data"
      (obj (field "coolant_c" (num (pos 8000)) (field "engine_rpm" (num (pos 90000)) end))) end

merge_lem_example :
    ((name : String)
      → get name (merge render no_json (hot_record ∷ cool_record ∷ [])).0
        ≡ newest render no_json name (hot_record ∷ cool_record ∷ []))
    × ((c : String)
        → lookup c (merge render no_json (hot_record ∷ cool_record ∷ [])).1
          ≡ newest_of_class render no_json c (hot_record ∷ cool_record ∷ []))
merge_lem_example = merge_lem render no_json (hot_record ∷ cool_record ∷ [])

abbrev hot_report : HealthReport
hot_report = health hundredths render ascii 1800000100000 (some (pos 1800000000)) hot

-- 100 seconds old, and the link was stale: 100 - 40 - 30 - 10.
hot_reported :
    (hot_report.health_score ≡ 20)
    × (hot_report.health_level ≡ "CRITICAL")
    × (hot_report.status ≡ "STALE")
unfolding health link_state_of upper py_str get_or ◌-ℤ◌ dtc_codes_of number_field
hot_reported = (refl, refl, refl)

health-charges_example :
    (points : ℕ) × (hot_report.health_score ≡ 100 - points)
    × (5 * length hot_report.warnings ≤ points)
    × (points ≤ 40 * length hot_report.warnings)
    × (hot_report.health_level ≡ level_of (100 - points))
health-charges_example =
    health-charges hundredths render ascii 1800000100000 (some (pos 1800000000)) hot

status-health_example :
    hot_report.status
    ≡ reported_status
        (link_state_of hundredths render ascii hot)
        (age_seconds 1800000100000 (received_ms (some (pos 1800000000))))
status-health_example =
    status-health hundredths render ascii 1800000100000 (some (pos 1800000000)) hot

-- The time of every record.
abbrev noon : Fields ℤ → Option ℤ
noon r = some (pos 1800000000)

abbrev coded : HealthReport
coded = record {
  status = "ONLINE";
  health_score = 75;
  health_level = "WARNING";
  last_seen_seconds = some 1;
  warnings = [];
  dtc_codes = "P0420" ∷ "P0171" ∷ "U0100" ∷ [];
  vehicle_link_state = "ONLINE";
}

abbrev hot_maintenance : Report ℤ
hot_maintenance =
    predictive_maintenance hundredths no_json noon ascii (hot_record ∷ []) hot hot_report

predictive-maintenance-IsWorst_example :
    IsWorst hot_maintenance.overall_status hot_maintenance.findings
    × (leb 2 (rank hot_maintenance.overall_status) ≡ ltb 0 hot_maintenance.actionable_systems)
predictive-maintenance-IsWorst_example =
    predictive-maintenance-IsWorst hundredths no_json noon ascii (hot_record ∷ []) hot hot_report

abbrev settings : Settings
settings = record {
  default_device_id = "CAR-01-OBD";
  query_limit = 100;
  maintenance_query_limit = 500;
  trip_query_limit = 300;
}

abbrev read : String → Option String
read name = some "<html>"

abbrev table : Query ℤ → Option (List (Fields ℤ))
table query = some (hot_record ∷ cool_record ∷ [])

abbrev one_minute : Value ℤ → Option ℤ
one_minute v = some (negsuc 4)

abbrev history_event : Fields ℤ
history_event =
    field "routeKey" (str "GET /v1/devices/{device_id}/history")
      (field "rawPath" (str "/v1/devices/CAR-01-OBD/history") end)

abbrev handled : Fields ℤ → Reply ℤ
handled event =
    lambda_handler hundredths ascii settings render no_json noon one_minute read table 1800000100000
      event

-- A history of -5 minutes is one of a minute.
history_handled :
    handled history_event
    ≡ Reply.history
        (str "CAR-01-OBD")
        1
        (record { device_id = str "CAR-01-OBD"; limit = 100; start_ms = some (pos 1800000040000) })
        (hot_record ∷ cool_record ∷ [])
unfolding lambda_handler ◌-ℤ◌
history_handled = refl

lambda_handler-Served_example :
    Served settings.query_limit 1800000100000 read table (handled history_event)
lambda_handler-Served_example =
    lambda_handler-Served hundredths ascii settings render no_json noon one_minute read table
      1800000100000 history_event
