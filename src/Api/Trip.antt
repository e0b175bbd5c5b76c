-- ===== src/Api/Trip.antt =====
-- `_trip_estimate` of lambda_function.py: the trip that the newest records of a device show.
pub mod Report
pub mod Totals
pub mod Bounds
mod Tests
use connected_vehicle_health.Prelude.{
  ℕ, ◌+◌, ◌*◌, String, Bool, true, false, not, ◌&&◌, Option, none, some, List, [], ◌∷◌, reverse,
  length, leb, ◌==◌, str_eq, if◌then◌else◌,
}
use connected_vehicle_health.Prelude.Int.{ℤ, pos, negsuc, ◌-ℤ◌, ltb_ℤ}
use connected_vehicle_health.Prelude.Assoc.{lookup}
use connected_vehicle_health.Json.{Value, Fields, end, field, get}
use connected_vehicle_health.Api.Values.{put}
use connected_vehicle_health.Api.Merge.{data_of}
use connected_vehicle_health.Api.Health.{received_ms}

-- Python's `float` as the estimate uses it.
pub record Floats : Type 1 where
  pub F : Type 0
  -- the literal `n / 10 ** k`
  pub literal : ℕ → ℕ → F
  pub lt : F → F → Bool
  pub le : F → F → Bool
  pub add : F → F → F
  pub mul : F → F → F
  pub div : F → F → F
  -- `number == number and abs(number) != float("inf")`
  pub is_finite : F → Bool
  -- `z / 1000.0`
  pub seconds : ℤ → F

-- Where a fuel rate comes from.
pub data Source : Type 0 where
  pid_5e_direct maf_gasoline_estimate : Source

-- `previous`: the time, the speed and the fuel rate of the last sample.
pub record Sample (F : Type 0) : Type 0 where
  pub time : ℤ
  pub speed : F
  pub rate : F

-- The local variables of the loop.
pub record Trip (N F : Type 0) : Type 0 where
  pub state : Fields N
  pub field_times : List (String × ℤ)
  pub previous : Option (Sample F)
  pub distance_km : F
  pub fuel_l : F
  pub idle_seconds : F
  pub idle_fuel_l : F
  pub valid_seconds : F
  pub possible_seconds : F
  pub valid_intervals : ℕ
  pub gap_count : ℕ
  pub start_ms : ℤ
  pub end_ms : ℤ
  pub max_speed : F
  pub max_rpm : F
  pub max_coolant : Option F
  pub fuel_source : Option Source

-- `field_times[name] = timestamp_ms`
unfoldable pub set_time : String → ℤ → List (String × ℤ) → List (String × ℤ)
set_time name t [] = (name, t) ∷ []
set_time name t ((j, u) ∷ times) =
    if str_eq j name then (j, t) ∷ times else (j, u) ∷ set_time name t times

-- The truth value of a time.
unfoldable pub is_time : ℤ → Bool
is_time (pos n) = not (n == 0)
is_time (negsuc n) = true

-- `timestamp_ms - field_times.get(name, 0) <= 15000`
unfoldable pub is_recent : ℤ → List (String × ℤ) → String → Bool
unfolding ◌-ℤ◌ lookup
is_recent t times name =
    not
      (ltb_ℤ (pos 15000) (t -ℤ elim (lookup name times) as (λ _. ℤ) [ none ↦ pos 0 | some u ↦ u ]))

unfoldable pub rate_field : Source → String
rate_field pid_5e_direct = "engine_fuel_rate_l_h"
rate_field maf_gasoline_estimate = "maf_g_s"

module _ {N : Type 0} where
  -- The inner loop: the fields of a record, with their time.
  unfoldable pub note_fields :
      ℤ → Fields N → Fields N × List (String × ℤ) → Fields N × List (String × ℤ)
  unfolding put set_time
  note_fields t end seen = seen
  note_fields t (field name value fs) (state, times) =
      note_fields t fs (put name value state, set_time name t times)

module _ (A : Floats) where
  open A use {F, literal, lt, le, add, mul, div, is_finite, seconds}

  abbrev pub zero_f : F
  zero_f = literal 0 0

  -- `max(a, b)` and `min(a, b)`
  unfoldable pub larger : F → F → F
  larger a b = if lt a b then b else a

  unfoldable pub smaller : F → F → F
  smaller a b = if lt b a then b else a

  -- `value >= 0` of a value that may be missing.
  unfoldable pub non_negative : Option F → Option F
  non_negative none = none
  non_negative (some x) = if le zero_f x then some x else none

  -- The fuel rate: the one reported, or that of the mass of air.
  unfoldable pub rate_of : Option F → Option F → Option (F × Source)
  unfolding non_negative
  rate_of direct maf = elim (non_negative direct) [
    | some rate ↦ some (rate, pid_5e_direct)
    | none ↦ elim (non_negative maf) [
      | some flow ↦ some (
        div (mul flow (literal 3600 0)) (mul (literal 147 1) (literal 745 0)),
        maf_gasoline_estimate,
      )
      | none ↦ none
    ]
  ]

  -- An interval without a gap, from `old` to `new`, of `dt` seconds.
  unfoldable pub add_interval : {N : Type 0} → F → Sample F → Sample F → Trip N F → Trip N F
  add_interval dt old new trip =
      let average_speed = div (add old.speed new.speed) (literal 2 0) in
      let average_rate = div (add old.rate new.rate) (literal 2 0) in
      let increment_l = div (mul average_rate dt) (literal 3600 0) in
      let idle = lt average_speed (literal 1 0) in
      record trip {
        distance_km = add trip.distance_km (div (mul average_speed dt) (literal 3600 0));
        fuel_l = add trip.fuel_l increment_l;
        idle_seconds = if idle then add trip.idle_seconds dt else trip.idle_seconds;
        idle_fuel_l = if idle then add trip.idle_fuel_l increment_l else trip.idle_fuel_l;
        valid_seconds = add trip.valid_seconds dt;
        valid_intervals = trip.valid_intervals + 1;
      }

  -- The time between two samples.
  unfoldable pub add_time : {N : Type 0} → F → Sample F → Sample F → Trip N F → Trip N F
  unfolding smaller add_interval
  add_time dt old new trip =
      let longer = record trip {
        possible_seconds = add trip.possible_seconds (smaller dt (literal 15 0));
      } in
      if le dt (literal 15 0)
      then add_interval dt old new longer
      else record longer { gap_count = trip.gap_count + 1 }

  -- A sample after the previous one, if there is one and it is later.
  unfoldable pub add_sample : {N : Type 0} → Option (Sample F) → Sample F → Trip N F → Trip N F
  unfolding add_time ◌-ℤ◌
  add_sample none new trip = record trip { previous = some new }
  add_sample (some old) new trip =
      if ltb_ℤ old.time new.time
      then record (add_time (seconds (new.time -ℤ old.time)) old new trip) { previous = some new }
      else record trip { previous = some new }

  unfoldable pub max_known : Option F → Option F → Option F
  unfolding larger
  max_known none known = known
  max_known (some x) none = some x
  max_known (some x) (some known) = some (larger known x)

  -- The maxima, the source and the times of a sample.
  unfoldable pub note_sample : {N : Type 0} → ℤ → F → F → Option F → Source → Trip N F → Trip N F
  unfolding larger max_known is_time
  note_sample t speed rpm coolant source trip = record trip {
    max_speed = larger trip.max_speed speed;
    max_rpm = larger trip.max_rpm rpm;
    max_coolant = max_known coolant trip.max_coolant;
    fuel_source = some source;
    start_ms = if is_time trip.start_ms then trip.start_ms else t;
    end_ms = t;
  }

  module _ {N : Type 0} (to_float : Value N → Option F) where
    -- `_finite(state.get(name))`
    unfoldable pub finite : String → Fields N → Option F
    unfolding get
    finite name state = elim (get name state) [
      | none ↦ none
      | some value ↦ elim (to_float value) [
        | none ↦ none
        | some x ↦ if is_finite x then some x else none
      ]
    ]

    -- A sample that is complete: `fresh` and `engine_running`.
    unfoldable pub is_usable : ℤ → List (String × ℤ) → F → Source → Bool
    unfolding is_recent rate_field
    is_usable t times rpm source =
        is_recent t times "vehicle_speed_kph"
        && is_recent t times "engine_rpm"
        && is_recent t times (rate_field source)
        && lt (literal 400 0) rpm

    -- The rest of a pass, for the values of the sample.
    unfoldable pub take_sample : ℤ → Option F → Option F → Option (F × Source) → Trip N F → Trip N F
    unfolding is_usable note_sample add_sample finite
    take_sample t (some speed) (some rpm) (some (rate, source)) trip =
        if is_usable t trip.field_times rpm source
        then add_sample trip.previous (record { time = t; speed = speed; rate = rate })
            (note_sample t speed rpm (finite "coolant_c" trip.state) source trip)
        else record trip { previous = none }
    take_sample t _ _ _ trip = record trip { previous = none }

    module _ (loads : String → Option (Value N)) (received_at : Fields N → Option ℤ) where
      -- A pass of the loop; `received_at` is `int(record.get("received_at", 0))`.
      unfoldable pub pass : Fields N → Trip N F → Trip N F
      unfolding received_ms is_time note_fields data_of finite rate_of take_sample
      pass fields trip =
          let t = received_ms (received_at fields) in
          let seen =
            note_fields t (data_of loads (get "data" fields)) (trip.state, trip.field_times) in
          let noted = record trip { state = seen.0; field_times = seen.1 } in
          if is_time t
          then take_sample t (finite "vehicle_speed_kph" seen.0) (finite "engine_rpm" seen.0)
              (rate_of (finite "engine_fuel_rate_l_h" seen.0) (finite "maf_g_s" seen.0)) noted
          else trip

      -- The loop, from the oldest record to the newest.
      unfoldable pub passes : List (Fields N) → Trip N F → Trip N F
      unfolding pass
      passes [] trip = trip
      passes (fields ∷ rest) trip = passes rest (pass fields trip)
