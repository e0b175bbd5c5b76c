-- ===== src/Api/Trip/Report.antt =====
-- The result of `_trip_estimate` of lambda_function.py.
use connected_vehicle_health.Prelude.{
  ℕ, String, Bool, true, false, not, ◌&&◌, Option, none, some, List, [], reverse, length, leb,
  if◌then◌else◌,
}
use connected_vehicle_health.Prelude.Int.{ℤ, pos, ◌-ℤ◌, ltb_ℤ}
use connected_vehicle_health.Json.{Value, Fields, end}
use connected_vehicle_health.Api.Trip.{
  Floats, Source, pid_5e_direct, maf_gasoline_estimate, Sample, Trip, is_time, zero_f, larger,
  smaller, passes,
}

-- The values of the reply before they are rounded; its disclaimer is left out.
pub record Estimate (F : Type 0) : Type 0 where
  pub method : String
  pub estimated : Bool
  pub status : String
  pub trip_start : Option ℤ
  pub trip_end : Option ℤ
  pub duration_seconds : F
  pub distance_km : F
  pub fuel_used_l : F
  pub average_l_per_100km : Option F
  pub average_km_per_l : Option F
  pub instant_fuel_rate_l_h : Option F
  pub instant_l_per_100km : Option F
  pub average_speed_kph : F
  pub max_speed_kph : F
  pub max_engine_rpm : F
  pub max_coolant_c : Option F
  pub idle_seconds : F
  pub idle_fuel_l : F
  pub data_coverage_pct : F
  pub confidence : String
  pub valid_intervals : ℕ
  pub gap_count : ℕ
  pub records_evaluated : ℕ

-- `start_ms or None`
unfoldable pub time_or_none : ℤ → Option ℤ
unfolding is_time
time_or_none t = if is_time t then some t else none

unfoldable pub method_of : Option Source → String
method_of none = "UNAVAILABLE"
method_of (some pid_5e_direct) = "PID_5E_DIRECT"
method_of (some maf_gasoline_estimate) = "MAF_GASOLINE_ESTIMATE"

-- `fuel_source != "PID_5E_DIRECT"`
unfoldable pub is_estimated : Option Source → Bool
is_estimated (some pid_5e_direct) = false
is_estimated _ = true

-- The status of a trip with its end, at a time of the clock.
unfoldable pub trip_status : ℕ → ℤ → String
unfolding is_time ◌-ℤ◌
trip_status now_ms end_ms =
    if is_time end_ms && not (ltb_ℤ (pos 60000) (pos now_ms -ℤ end_ms)) then "ACTIVE" else "STALE"

module _ (A : Floats) where
  open A use {F, literal, lt, le, mul, div, seconds}

  -- The truth value of a float, which is not negative here.
  unfoldable pub is_positive : F → Bool
  is_positive x = lt (zero_f A) x

  unfoldable pub duration_of : ℤ → ℤ → F
  unfolding is_time larger ◌-ℤ◌
  duration_of start_ms end_ms =
      if is_time start_ms then larger A (zero_f A) (seconds (end_ms -ℤ start_ms)) else zero_f A

  unfoldable pub coverage_of : F → F → F
  unfolding is_positive smaller
  coverage_of valid possible =
      if is_positive possible
      then smaller A (literal 100 0) (mul (div valid possible) (literal 100 0))
      else zero_f A

  unfoldable pub mean_speed : F → F → F
  unfolding is_positive
  mean_speed distance valid =
      if is_positive valid then div distance (div valid (literal 3600 0)) else zero_f A

  -- `x / y * k if y >= least else None`
  unfoldable pub litres_per_100km : F → F → F → Option F
  litres_per_100km least fuel distance =
      if le least distance then some (mul (div fuel distance) (literal 100 0)) else none

  unfoldable pub km_per_litre : F → F → Option F
  km_per_litre distance fuel = if le (literal 1 2) fuel then some (div distance fuel) else none

  unfoldable pub latest_rate : Option (Sample F) → Option F
  latest_rate none = none
  latest_rate (some sample) = some sample.rate

  unfoldable pub instant_of : Option (Sample F) → Option F
  unfolding litres_per_100km
  instant_of none = none
  instant_of (some sample) = litres_per_100km (literal 5 0) sample.rate sample.speed

  unfoldable pub confidence_of : F → F → ℕ → String
  confidence_of coverage duration intervals =
      if le (literal 90 0) coverage && le (literal 600 0) duration && leb 30 intervals
      then "HIGH"
      else if le (literal 70 0) coverage && le (literal 180 0) duration && leb 10 intervals
      then "MEDIUM"
      else "LOW"

  -- The values at the start of the loop.
  unfoldable pub no_trip : {N : Type 0} → Trip N F
  no_trip = record {
    state = end;
    field_times = [];
    previous = none;
    distance_km = zero_f A;
    fuel_l = zero_f A;
    idle_seconds = zero_f A;
    idle_fuel_l = zero_f A;
    valid_seconds = zero_f A;
    possible_seconds = zero_f A;
    valid_intervals = 0;
    gap_count = 0;
    start_ms = pos 0;
    end_ms = pos 0;
    max_speed = zero_f A;
    max_rpm = zero_f A;
    max_coolant = none;
    fuel_source = none;
  }

  -- The result, from what the loop leaves.
  unfoldable pub estimate_of : {N : Type 0} → ℕ → ℕ → Trip N F → Estimate F
  unfolding time_or_none method_of is_estimated trip_status duration_of coverage_of mean_speed
      litres_per_100km km_per_litre latest_rate instant_of confidence_of
  estimate_of now_ms records trip = record {
    method = method_of trip.fuel_source;
    estimated = is_estimated trip.fuel_source;
    status = trip_status now_ms trip.end_ms;
    trip_start = time_or_none trip.start_ms;
    trip_end = time_or_none trip.end_ms;
    duration_seconds = duration_of trip.start_ms trip.end_ms;
    distance_km = trip.distance_km;
    fuel_used_l = trip.fuel_l;
    average_l_per_100km = litres_per_100km (literal 1 1) trip.fuel_l trip.distance_km;
    average_km_per_l = km_per_litre trip.distance_km trip.fuel_l;
    instant_fuel_rate_l_h = latest_rate trip.previous;
    instant_l_per_100km = instant_of trip.previous;
    average_speed_kph = mean_speed trip.distance_km trip.valid_seconds;
    max_speed_kph = trip.max_speed;
    max_engine_rpm = trip.max_rpm;
    max_coolant_c = trip.max_coolant;
    idle_seconds = trip.idle_seconds;
    idle_fuel_l = trip.idle_fuel_l;
    data_coverage_pct = coverage_of trip.valid_seconds trip.possible_seconds;
    confidence =
        confidence_of (coverage_of trip.valid_seconds trip.possible_seconds)
          (duration_of trip.start_ms trip.end_ms) trip.valid_intervals;
    valid_intervals = trip.valid_intervals;
    gap_count = trip.gap_count;
    records_evaluated = records;
  }

  -- `_trip_estimate`, at a time of the clock, for records that come newest first.
  unfoldable pub trip_estimate :
      {N : Type 0}
      → (Value N → Option F)
      → (String → Option (Value N))
      → (Fields N → Option ℤ)
      → ℕ
      → List (Fields N)
      → Estimate F
  unfolding no_trip passes estimate_of
  trip_estimate to_float loads received_at now_ms records =
      estimate_of now_ms (length records)
        (passes A to_float loads received_at (reverse records) no_trip)
