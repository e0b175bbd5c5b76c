-- ===== src/Api/Trip/Tests.antt =====
-- A trip of three records for the theorem on `_trip_estimate`, with floats that are whole
-- thousandths.
use connected_vehicle_health.Prelude.{
  ℕ, ◌+◌, ◌*◌, ◌/◌, ◌^◌, ◌≤◌, ◌≡◌, refl, true, Option, none, some, List, [], ◌∷◌, arith, leb, ltb,
}
use connected_vehicle_health.Prelude.Int.{ℤ, pos, pos_part}
use connected_vehicle_health.Json.{Value, Fields, num, obj, field, end, get}
use connected_vehicle_health.Api.Trip.{Floats}
use connected_vehicle_health.Api.Trip.Report.{Estimate, trip_estimate}
use connected_vehicle_health.Api.Trip.Totals.{IsFloat}
use connected_vehicle_health.Api.Trip.Bounds.{trip_estimate-bounds}

abbrev thousandths : Floats
thousandths = record {
  F = ℕ;
  literal = λ n k. n * 1000 / 10 ^ k;
  lt = ltb;
  le = leb;
  add = λ a b. a + b;
  mul = λ a b. a * b / 1000;
  div = λ a b. a * 1000 / b;
  is_finite = λ a. true;
  seconds = pos_part;
}

leb_trans : (a b c : ℕ) → leb a b ≡ true → leb b c ≡ true → leb a c ≡ true
leb_trans a b c h k = ground (arith, h, k)

leb-zero : (n : ℕ) → leb 0 n ≡ true
leb-zero n = ground arith

leb_refl : (n : ℕ) → leb n n ≡ true
leb_refl n = ground arith

thousandths-IsFloat : IsFloat thousandths
thousandths-IsFloat = record {
  le_trans = leb_trans;
  le-lt = λ a b h. ground (arith, h);
  literal_le = λ n k. leb-zero _;
  add_mono = λ a b d z h k. ground (arith, h);
  add_grows = λ a b d z h k. ground (arith, h);
  div_literal = λ a n l u h. leb-zero _;
  lt_le = λ a b h. ground (arith, h);
  literal_refl = λ n k. leb_refl _;
  flow_rate = λ a h. leb-zero _;
  seconds_le = λ a b h. leb-zero _;
  mul_seconds = λ x a b l h. leb-zero _;
}

abbrev sample : ℕ → ℕ → ℕ → Fields ℕ
sample time speed rate = field "received_at" (num time) (
    field "data"
      (obj (
        field "vehicle_speed_kph" (num (speed * 1000))
          (field "engine_rpm" (num 900000) (field "engine_fuel_rate_l_h" (num (rate * 1000)) end))))
      end)

abbrev number_of : Value ℕ → Option ℕ
number_of (num n) = some n
number_of _ = none

abbrev time_of : Option (Value ℕ) → Option ℤ
time_of (some (num n)) = some (pos n)
time_of _ = none

abbrev received_at : Fields ℕ → Option ℤ
received_at fields = time_of (get "received_at" fields)

-- Ten seconds of idling, ten of driving, and half a minute without records; newest first.
abbrev drive : List (Fields ℕ)
drive =
    sample 1700000050 60 6
    ∷ sample 1700000020 60 6
    ∷ sample 1700000010 0 2
    ∷ sample 1700000000 0 2
    ∷ []

abbrev result : Estimate ℕ
result = trip_estimate thousandths number_of (λ s. none) received_at 1700000051000 drive

trip_estimate-bounds_example :
    (leb 0 result.idle_fuel_l ≡ true)
    × (leb result.idle_fuel_l result.fuel_used_l ≡ true)
    × (leb 0 result.idle_seconds ≡ true)
    × (leb result.data_coverage_pct 100000 ≡ true)
    × (result.valid_intervals + result.gap_count ≤ 4)
trip_estimate-bounds_example =
    trip_estimate-bounds thousandths thousandths-IsFloat number_of (λ s. none) received_at
      1700000051000 drive

drive_totals :
    (result.valid_intervals ≡ 2)
    × (result.gap_count ≡ 1)
    × (result.idle_seconds ≡ 10000)
    × (result.status ≡ "ACTIVE")
unfolding trip_estimate get
drive_totals = (refl, refl, refl, refl)
