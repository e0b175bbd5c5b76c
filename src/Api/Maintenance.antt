-- ===== src/Api/Maintenance.antt =====
-- `_predictive_maintenance` of lambda_function.py: five findings by explainable rules.
pub mod Systems
pub mod Fuel
pub mod Quality
pub mod Overall
use connected_vehicle_health.Prelude.{
  ℕ, suc, ◌+◌, String, Bool, true, false, not, ◌&&◌, ◌||◌, Option, none, some, List, [], ◌∷◌,
  length, reverse, leb, ltb, if◌then◌else◌,
}
use connected_vehicle_health.Prelude.Int.{ℤ}
use connected_vehicle_health.Json.{Value, Fields, get}
use connected_vehicle_health.Api.Values.{Numbers, number}
use connected_vehicle_health.Api.Merge.{data_of}
use connected_vehicle_health.Api.Health.{received_ms}

-- The `status` of a finding.
pub data Condition : Type 0 where
  insufficient_data normal observe service_soon inspect_now : Condition

-- `rank`
unfoldable pub rank : Condition → ℕ
rank insufficient_data = 0
rank normal = 1
rank observe = 2
rank service_soon = 3
rank inspect_now = 4

pub data Confidence : Type 0 where
  high medium low : Confidence

-- `_confidence`
unfoldable pub confidence_of : ℕ → Confidence
confidence_of sample_count =
    if leb 20 sample_count then high else if leb 8 sample_count then medium else low

pub record Finding : Type 0 where
  pub system : String
  pub label : String
  pub status : Condition
  pub confidence : Confidence
  pub evidence : String
  pub recommendation : String
  pub sample_count : ℕ

-- `_finding`
unfoldable pub finding : String → String → Condition → String → String → ℕ → Finding
unfolding confidence_of
finding system label status evidence recommendation sample_count = record {
  system = system;
  label = label;
  status = status;
  confidence = confidence_of sample_count;
  evidence = evidence;
  recommendation = recommendation;
  sample_count = sample_count;
}

-- `max(findings, key=…)`: the first of the findings with the highest rank, after `best`.
unfoldable pub worst : Finding → List Finding → Finding
unfolding rank
worst best [] = best
worst best (f ∷ fs) = worst (if ltb (rank best.status) (rank f.status) then f else best) fs

-- `actionable`
unfoldable pub actionable : List Finding → ℕ
unfolding rank
actionable [] = 0
actionable (f ∷ fs) = let rest = actionable fs in if leb 2 (rank f.status) then suc rest else rest

module _ {N : Type 0} where
  -- `sum(1 for _, value in values if test(value))`
  unfoldable pub count_if : (N → Bool) → List (ℤ × N) → ℕ
  count_if test [] = 0
  count_if test ((t, value) ∷ values) =
      let rest = count_if test values in if test value then suc rest else rest

  -- The value of the last pair.
  unfoldable pub last_value : N → List (ℤ × N) → N
  last_value d [] = d
  last_value d ((t, value) ∷ values) = last_value value values

  -- `values[-1][1] - values[0][1] if len(values) >= 5 else 0`
  unfoldable pub rise : (N → N → N) → N → List (ℤ × N) → N
  unfolding last_value
  rise sub zero_value [] = zero_value
  rise sub zero_value ((t, first) ∷ values) =
      if leb 5 (length ((t, first) ∷ values))
      then sub (last_value first values) first
      else zero_value

module _ (A : Numbers) (loads : String → Option (Value (A.Num)))
    (int_of : Fields (A.Num) → Option ℤ) where
  open A use {Num}

  -- A record's part of `_series`, in front of the rest.
  unfoldable pub series_from : String → List (Fields Num) → List (ℤ × Num)
  unfolding number data_of received_ms
  series_from name [] = []
  series_from name (r ∷ rs) =
      let rest = series_from name rs in
      elim (get name (data_of loads (get "data" r))) [
        | none ↦ rest
        | some v ↦ elim (number A v) [
          | none ↦ rest
          | some value ↦ (received_ms (int_of r), value) ∷ rest
        ]
      ]

  -- `_series`: oldest first.
  unfoldable pub series : List (Fields Num) → String → List (ℤ × Num)
  unfolding series_from
  series records name = series_from name (reverse records)
