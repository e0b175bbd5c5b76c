-- ===== src/Api/Maintenance/Overall/Worst.antt =====
-- The overall status of a report against its findings.
use connected_vehicle_health.Prelude.{
  ℕ, ◌≤◌, ◌<◌, Bool, true, false, Option, List, [], ◌∷◌, String, ◌≡◌, refl, sym, ap, ◌∙◌, ◌⊎◌, inl,
  inr, leb, ltb, Bool-cases, if◌then◌else◌, arith, All,
}
use connected_vehicle_health.Prelude.Int.{ℤ}
use connected_vehicle_health.Json.{Value, Fields}
use connected_vehicle_health.Api.Values.{Numbers}
use connected_vehicle_health.Api.PyText.{Unicode}
use connected_vehicle_health.Api.Health.{HealthReport}
use connected_vehicle_health.Api.Maintenance.{Condition, rank, Finding, worst, actionable}
use connected_vehicle_health.Api.Maintenance.Overall.{
  predictive_maintenance, first_finding, other_findings,
}

-- No finding is ranked above `k`.
abbrev pub AtMost : ℕ → List Finding → Type 0
AtMost k = All (λ f. rank f.status ≤ k)

-- A finding has the status `c`.
abbrev pub Has : Condition → List Finding → Type 0
Has c [] = ⊥
Has c (f ∷ fs) = (f.status ≡ c) ⊎ Has c fs

-- The status `c` is the worst of the findings `fs`.
abbrev pub IsWorst : Condition → List Finding → Type 0
IsWorst c fs = AtMost (rank c) fs × Has c fs

worst_step :
    (best f : Finding) (fs : List Finding) (next : Finding)
    → (next ≡ best) ⊎ (next ≡ f)
    → rank best.status ≤ rank next.status
    → rank f.status ≤ rank next.status
    → IsWorst (Finding.status (worst next fs)) (next ∷ fs)
    → IsWorst (Finding.status (worst next fs)) (best ∷ f ∷ fs)
worst_step best f fs next (inl p) hb hf (most, inl here) = (
  (omega (arith, hb, most.0), (omega (arith, hf, most.0), most.1)),
  inl (sym (ap Finding.status p) ∙ here),
)
worst_step best f fs next (inr p) hb hf (most, inl here) = (
  (omega (arith, hb, most.0), (omega (arith, hf, most.0), most.1)),
  inr (inl (sym (ap Finding.status p) ∙ here)),
)
worst_step best f fs next e hb hf (most, inr there) =
    ((omega (arith, hb, most.0), (omega (arith, hf, most.0), most.1)), inr (inr there))

-- The finding that `worst` goes on with.
abbrev higher : Finding → Finding → Finding
higher best f = if ltb (rank best.status) (rank f.status) then f else best

higher-either :
    (b : Bool) (best f : Finding) → ((if b then f else best) ≡ best) ⊎ ((if b then f else best) ≡ f)
higher-either true best f = inr refl
higher-either false best f = inl refl

higher-ge :
    (best f : Finding)
    → (rank best.status ≤ rank (Finding.status (higher best f)))
      × (rank f.status ≤ rank (Finding.status (higher best f)))
higher-ge best f = elim (Bool-cases (ltb (rank best.status) (rank f.status))) [
  | inl h ↦ rw h (ground arith, omega arith)
  | inr h ↦ rw h (omega arith, ground arith)
]

worst-IsWorst :
    (best : Finding) (fs : List Finding) → IsWorst (Finding.status (worst best fs)) (best ∷ fs)
unfolding worst
worst-IsWorst best [] = ((omega arith, tt), inl refl)
worst-IsWorst best (f ∷ fs) =
    let next = higher best f in
    let (hb, hf) = higher-ge best f in
    worst_step best f fs next (higher-either (ltb (rank best.status) (rank f.status)) best f) hb hf
      (worst-IsWorst next fs)

actionable-low : (fs : List Finding) (k : ℕ) → k < 2 → AtMost k fs → ltb 0 (actionable fs) ≡ false
unfolding actionable
actionable-low [] k h a = refl
actionable-low (f ∷ fs) k h (a, b) = let rest = actionable-low fs k h b in ground arith

actionable-high :
    (fs : List Finding) (c : Condition) → 2 ≤ rank c → Has c fs → ltb 0 (actionable fs) ≡ true
unfolding actionable
actionable-high [] c h x = elim x [ ]
actionable-high (f ∷ fs) c h (inl p) = let high : 2 ≤ rank f.status = rw p h in ground arith
actionable-high (f ∷ fs) c h (inr p) = let rest = actionable-high fs c h p in ground arith

IsWorst-actionable :
    (c : Condition) (fs : List Finding) → IsWorst c fs → leb 2 (rank c) ≡ ltb 0 (actionable fs)
IsWorst-actionable c fs (most, has) = elim (Bool-cases (leb 2 (rank c))) [
  | inl h ↦ h ∙ sym (actionable-high fs c (ground arith) has)
  | inr h ↦ h ∙ sym (actionable-low fs (rank c) (ground arith) most)
]

-- The overall status of every report is the status of one of its five findings, no finding of
-- the report is ranked above it, and it is OBSERVE or worse exactly if the number of actionable
-- systems is positive.
pub predictive-maintenance-IsWorst :
    (A : Numbers) (loads : String → Option (Value (A.Num))) (int_of : Fields (A.Num) → Option ℤ)
    (u : Unicode) (records : List (Fields (A.Num))) (telemetry : Fields (A.Num))
    (health : HealthReport)
    → let report = predictive_maintenance A loads int_of u records telemetry health in
      IsWorst report.overall_status report.findings
      × (leb 2 (rank report.overall_status) ≡ ltb 0 report.actionable_systems)
unfolding predictive_maintenance
predictive-maintenance-IsWorst A loads int_of u records telemetry health =
    let first = first_finding A loads int_of u records telemetry in
    let others = other_findings A loads int_of u records telemetry health in
    let is_worst = worst-IsWorst first others in
    (is_worst, IsWorst-actionable (Finding.status (worst first others)) (first ∷ others) is_worst)
