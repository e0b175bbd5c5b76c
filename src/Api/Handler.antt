-- ===== src/Api/Handler.antt =====
-- `lambda_handler` of lambda_function.py: from an event to the reply, with the table as a parameter.
pub mod Served
use connected_vehicle_health.Prelude.{
  ℕ, ◌*◌, String, Bool, true, false, ◌||◌, Option, none, some, List, [], ◌∷◌, map, length, str_eq,
  if◌then◌else◌,
}
use connected_vehicle_health.Prelude.Int.{ℤ, pos, ◌-ℤ◌}
use connected_vehicle_health.Json.{Value, Fields, str, end, get, get_or}
use connected_vehicle_health.Api.Values.{Numbers}
use connected_vehicle_health.Api.PyText.{Unicode}
use connected_vehicle_health.Api.Merge.{merge}
use connected_vehicle_health.Api.Health.{HealthReport, health, clean_telemetry}
use connected_vehicle_health.Api.Maintenance.Overall.{Report, predictive_maintenance}
use connected_vehicle_health.Text.Search.{starts_with, ends_with, occurs_in}
use connected_vehicle_health.Api.Event.{
  last_segment, dict_or_empty, device_id_of, route_of, minutes_of_query, as_text,
}

-- The environment variables at the top of the file.
pub record Settings : Type 0 where
  pub default_device_id : String
  pub query_limit : ℕ
  pub maintenance_query_limit : ℕ
  pub trip_query_limit : ℕ

-- What `_query` asks the table for, newest first.
pub record Query (N : Type 0) : Type 0 where
  pub device_id : Value N
  pub limit : ℕ
  pub start_ms : Option ℤ

-- The part of the last reply that `/latest` leaves out.
pub record Score : Type 0 where
  pub health_score : ℕ
  pub health_level : String
  pub warnings : List String

pub record Body (N : Type 0) : Type 0 where
  pub device_id : Value N
  pub device_name : Value N
  pub device_type : Value N
  pub source_mode : Value N
  pub received_at : Option (Value N)
  pub records_evaluated : ℕ
  pub available_data_classes : List String
  pub telemetry : Fields N
  pub status : String
  pub last_seen_seconds : Option ℕ
  pub dtc_codes : List String
  pub vehicle_link_state : String
  pub score : Option Score

-- The replies, each with the values in its body.
pub data Reply (N : Type 0) : Type 0 where
  preflight : Reply N
  file : String → String → String → Reply N
  file_missing : Reply N
  asset_refused : Reply N
  history : Value N → ℕ → Query N → List (Fields N) → Reply N
  no_records : Value N → Reply N
  maintenance : Value N → Option (Value N) → Report N → Reply N
  trip : Value N → Option (Value N) → List (Fields N) → Reply N
  no_telemetry : Value N → Reply N
  report : Body N → Reply N
  failed : Reply N

unfoldable pub status_code : {N : Type 0} → Reply N → ℕ
status_code preflight = 204
status_code file_missing = 404
status_code asset_refused = 404
status_code (no_records id) = 404
status_code (no_telemetry id) = 404
status_code failed = 500
status_code _ = 200

-- `allowed`: the content type of an asset that is served.
unfoldable pub content_type_of : String → Option String
content_type_of asset =
    if str_eq asset "style.css"
    then some "text/css; charset=utf-8"
    else if str_eq asset "app.js" || str_eq asset "config.js"
    then some "application/javascript; charset=utf-8"
    else none

-- `_file_response`; `read` reads a file of the frontend's directory, and `none` is its OSError.
unfoldable pub file_response : {N : Type 0} → (String → Option String) → String → String → Reply N
file_response read name content_type = elim (read name) [
  | none ↦ file_missing
  | some body ↦ file name content_type body
]

unfoldable pub asset_response : {N : Type 0} → (String → Option String) → String → Reply N
unfolding content_type_of file_response
asset_response read asset = elim (content_type_of asset) [
  | none ↦ asset_refused
  | some content_type ↦ file_response read asset content_type
]

-- `body.pop` of the three keys
unfoldable pub without_score : {N : Type 0} → Body N → Body N
without_score body = record body { score = none }

module _ (A : Numbers) (u : Unicode) (settings : Settings) where
  open A use {Num, is_zero}

  module _ (render : Value Num → String) (loads : String → Option (Value Num))
      (int_of : Fields Num → Option ℤ) (int_of_value : Value Num → Option ℤ)
      (read : String → Option String) (table : Query Num → Option (List (Fields Num)))
      (now_ms : ℕ) where
    -- The records, or the error that the table raises; `reply` goes on with the records.
    unfoldable pub on_records : Query Num → (List (Fields Num) → Reply Num) → Reply Num
    on_records query reply = elim (table query) [ none ↦ failed | some records ↦ reply records ]

    -- The health of the newest record, over the telemetry as it stands after `_health` has cleaned it.
    unfoldable pub health_of : Fields Num → Fields Num → HealthReport
    unfolding health
    health_of latest telemetry = health A render u now_ms (int_of latest) telemetry

    unfoldable pub history_reply : Value Num → ℕ → Reply Num
    unfolding on_records
    history_reply id minutes =
        let query : Query Num = record {
          device_id = id;
          limit = settings.query_limit;
          start_ms = some (pos now_ms -ℤ pos (minutes * 60 * 1000));
        } in
        on_records query (history id minutes query)

    unfoldable pub maintenance_reply : Value Num → List (Fields Num) → Reply Num
    unfolding merge health_of clean_telemetry predictive_maintenance get
    maintenance_reply id [] = no_records id
    maintenance_reply id (r ∷ rs) =
        let (telemetry, classes) = merge render loads (r ∷ rs) in
        maintenance id (get "received_at" r) (
          predictive_maintenance A loads int_of u (r ∷ rs) (clean_telemetry A render u telemetry)
            (health_of r telemetry))

    unfoldable pub trip_reply : Value Num → List (Fields Num) → Reply Num
    unfolding get
    trip_reply id [] = no_records id
    trip_reply id (r ∷ rs) = trip id (get "received_at" r) (r ∷ rs)

    unfoldable pub body_of : Value Num → Fields Num → List (Fields Num) → Body Num
    unfolding merge health_of clean_telemetry get get_or
    body_of id r rs =
        let (telemetry, classes) = merge render loads (r ∷ rs) in
        let h = health_of r telemetry in
        record {
          device_id = id;
          device_name = get_or "device_name" id r;
          device_type = get_or "device_type" (str "obd2_vehicle") r;
          source_mode = get_or "source_mode" (str "unknown") r;
          received_at = get "received_at" r;
          records_evaluated = length (r ∷ rs);
          available_data_classes = map (λ p. p.0) classes;
          telemetry = clean_telemetry A render u telemetry;
          status = h.status;
          last_seen_seconds = h.last_seen_seconds;
          dtc_codes = h.dtc_codes;
          vehicle_link_state = h.vehicle_link_state;
          score = some (record {
            health_score = h.health_score;
            health_level = h.health_level;
            warnings = h.warnings;
          });
        }

    unfoldable pub report_reply : Value Num → String → List (Fields Num) → Reply Num
    unfolding body_of without_score ends_with
    report_reply id path [] = no_telemetry id
    report_reply id path (r ∷ rs) =
        let body = body_of id r rs in
        report (if ends_with "/latest" path then without_score body else body)

    -- A query of the table without a start.
    unfoldable pub all_of : Value Num → ℕ → Query Num
    all_of id limit = record { device_id = id; limit = limit; start_ms = none }

    -- The reply to a path, once the event has been read.
    unfoldable pub reply_to : Fields Num → Value Num → String → Reply Num
    unfolding file_response asset_response dict_or_empty get minutes_of_query history_reply
        on_records maintenance_reply trip_reply report_reply all_of occurs_in last_segment ends_with
    reply_to event id path =
        if str_eq path "/" || str_eq path "/v1" || str_eq path "/v1/"
        then file_response read "index.html" "text/html; charset=utf-8"
        else if occurs_in "/assets/" path
        then asset_response read (last_segment path)
        else if ends_with "/history" path
        then (elim (dict_or_empty is_zero (get "queryStringParameters" event)) [
          | none ↦ failed
          | some query ↦ history_reply id (minutes_of_query is_zero int_of_value query)
        ])
        else if ends_with "/maintenance" path
        then on_records (all_of id settings.maintenance_query_limit) (maintenance_reply id)
        else if ends_with "/trip" path
        then on_records (all_of id settings.trip_query_limit) (trip_reply id)
        else on_records (all_of id settings.query_limit) (report_reply id path)

    -- A path or a route key that is not a text has no `startswith` and `endswith`.
    unfoldable pub dispatch : Fields Num → Value Num → Value Num → Value Num → Reply Num
    unfolding reply_to starts_with as_text
    dispatch event id route_key path = elim (as_text route_key) [
      | none ↦ failed
      | some key ↦
          if starts_with "OPTIONS " key
          then preflight
          else elim (as_text path) [ none ↦ failed | some p ↦ reply_to event id p ]
    ]

    -- `lambda_handler(event, context)`
    unfoldable pub lambda_handler : Fields Num → Reply Num
    unfolding device_id_of route_of dispatch
    lambda_handler event = elim (device_id_of is_zero settings.default_device_id event) [
      | none ↦ failed
      | some id ↦ elim (route_of is_zero event) [
        | none ↦ failed
        | some (route_key, path) ↦ dispatch event id route_key path
      ]
    ]
