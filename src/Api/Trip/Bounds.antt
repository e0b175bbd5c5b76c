-- ===== src/Api/Trip/Bounds.antt =====
-- What `_trip_estimate` of lambda_function.py reports, whatever records it is given.
use mathlib.Core.List.{reverse-cons}
use connected_vehicle_health.Prelude.{
  ap, length-append, ℕ, ◌+◌, ◌≤◌, ◌≡◌, refl, true, String, Option, none, some, List, [], ◌∷◌,
  reverse, length, arith, Bool-cases, inl, inr,
}
use connected_vehicle_health.Prelude.Int.{ℤ, ltb_ℤ, ◌-ℤ◌}
use connected_vehicle_health.Json.{Value, Fields}
use connected_vehicle_health.Api.Health.{received_ms}
use connected_vehicle_health.Api.Trip.{
  Floats, Source, Sample, Trip, zero_f, smaller, add_sample, note_sample, finite, is_usable,
  take_sample, pass, passes, is_time,
}
use connected_vehicle_health.Api.Trip.Report.{no_trip, is_positive, coverage_of, trip_estimate}
use connected_vehicle_health.Api.Trip.Totals.{
  IsFloat, ◌≤F◌, IsSummed, Rated, RateKnown, rate_of-RateKnown, add_time-IsSummed, add_time-counts,
}

length-reverse : {A : Type 0} (xs : List A) → length (reverse xs) ≡ length xs
length-reverse [] = refl
length-reverse (x ∷ xs) =
    omega
      (arith, ap length (reverse-cons x xs), length-append (reverse xs) (x ∷ []), length-reverse xs)

module _ (A : Floats) (laws : IsFloat A) where
  open A use {F, literal, lt, le, add, mul, div, seconds}
  open laws use {literal_le, lt_le, literal_refl}

  module _ {N : Type 0} where
    -- After `k` records: the sums, the last sample, and at most an interval for each record.
    abbrev pub IsTrip : ℕ → Trip N F → Type 0
    IsTrip k trip =
        IsSummed A laws trip
        × Rated A laws trip.previous
        × (trip.valid_intervals + trip.gap_count ≤ k)

    add_sample-IsTrip :
        (k : ℕ) (previous : Option (Sample F)) (new : Sample F) (trip : Trip N F)
        → Rated A laws previous
        → ◌≤F◌ A laws (zero_f A) new.rate
        → IsSummed A laws trip
        → trip.valid_intervals + trip.gap_count ≤ k
        → IsTrip (k + 1) (add_sample A previous new trip)
    unfolding add_sample
    add_sample-IsTrip k none new trip o n h c = (h, n, omega (arith, c))
    add_sample-IsTrip k (some old) new trip o n h c = elim (Bool-cases (ltb_ℤ old.time new.time)) [
      | inl later ↦ rw later (
        add_time-IsSummed A laws old new trip later o n h,
        n,
        omega (arith, c, add_time-counts A laws (seconds (new.time -ℤ old.time)) old new trip),
      )
      | inr same ↦ rw same (h, n, omega (arith, c))
    ]

    module _ (to_float : Value N → Option F) where
      take_sample-IsTrip :
          (k : ℕ) (t : ℤ) (speed rpm : Option F) (rate : Option (F × Source)) (trip : Trip N F)
          → RateKnown A laws rate
          → IsTrip k trip
          → IsTrip (k + 1) (take_sample A to_float t speed rpm rate trip)
      unfolding take_sample note_sample
      take_sample-IsTrip k t none rpm rate trip known (h, p, c) = (h, tt, omega (arith, c))
      take_sample-IsTrip k t (some speed) none rate trip known (h, p, c) = (h, tt, omega (arith, c))
      take_sample-IsTrip k t (some speed) (some rpm) none trip known (h, p, c) =
          (h, tt, omega (arith, c))
      take_sample-IsTrip k t (some speed) (some rpm) (some (rate, source)) trip known (h, p, c) =
          elim (Bool-cases (is_usable A to_float t trip.field_times rpm source)) [
            | inl usable ↦ rw usable (
                add_sample-IsTrip k trip.previous (record { time = t; speed = speed; rate = rate })
                  (note_sample A t speed rpm (finite A to_float "coolant_c" trip.state) source trip)
                  p known h c)
            | inr stale ↦ rw stale (h, tt, omega (arith, c))
          ]

      module _ (loads : String → Option (Value N)) (received_at : Fields N → Option ℤ) where
        pass-IsTrip :
            (k : ℕ) (fields : Fields N) (trip : Trip N F)
            → IsTrip k trip
            → IsTrip (k + 1) (pass A to_float loads received_at fields trip)
        unfolding pass
        pass-IsTrip k fields trip h =
            elim (Bool-cases (is_time (received_ms (received_at fields)))) [
              | inl timed ↦ rw timed (
                  take_sample-IsTrip k (received_ms (received_at fields)) _ _ _ _
                    (rate_of-RateKnown A laws _ _) h)
              | inr untimed ↦ rw untimed (h.0, h.1, omega (arith, h.2))
            ]

        passes-IsTrip :
            (records : List (Fields N)) (k : ℕ) (trip : Trip N F)
            → IsTrip k trip
            → IsTrip (k + length records) (passes A to_float loads received_at records trip)
        unfolding passes
        passes-IsTrip [] k trip h = (h.0, h.1, omega (arith, h.2))
        passes-IsTrip (fields ∷ records) k trip h =
            let later =
              passes-IsTrip records (k + 1) (pass A to_float loads received_at fields trip)
                (pass-IsTrip k fields trip h) in
            (later.0, later.1, omega (arith, later.2))

  coverage_of-le : (valid possible : F) → le (coverage_of A valid possible) (literal 100 0) ≡ true
  unfolding coverage_of smaller
  coverage_of-le valid possible =
      let share = mul (div valid possible) (literal 100 0) in
      elim (Bool-cases (is_positive A possible)) [
        | inr empty ↦ rw empty (literal_le 100 0)
        | inl some_time ↦ elim (Bool-cases (lt share (literal 100 0))) [
          | inl below ↦ rw (some_time, below) (lt_le _ _ below)
          | inr above ↦ rw (some_time, above) (literal_refl 100 0)
        ]
      ]

  -- For floats that keep the laws of IEEE arithmetic, whatever the records hold: the fuel used while
  -- idle is not negative and at most the fuel used, the idle time is not negative, the coverage is
  -- at most 100, and there are no more intervals and gaps together than records.
  pub trip_estimate-bounds :
      {N : Type 0} (to_float : Value N → Option F) (loads : String → Option (Value N))
      (received_at : Fields N → Option ℤ) (now_ms : ℕ) (records : List (Fields N))
      → let e = trip_estimate A to_float loads received_at now_ms records in
        (le (literal 0 0) e.idle_fuel_l ≡ true)
        × (le e.idle_fuel_l e.fuel_used_l ≡ true)
        × (le (literal 0 0) e.idle_seconds ≡ true)
        × (le e.data_coverage_pct (literal 100 0) ≡ true)
        × (e.valid_intervals + e.gap_count ≤ length records)
  unfolding trip_estimate no_trip
  trip_estimate-bounds to_float loads received_at now_ms records =
      let zero = literal_le 0 0 in
      let done =
        passes-IsTrip to_float loads received_at (reverse records) 0 (no_trip A)
          ((zero, zero, zero, zero, zero), tt, omega arith) in
      (
        done.0.0,
        done.0.1,
        done.0.2,
        coverage_of-le _ _,
        omega (arith, done.2, length-reverse records),
      )
