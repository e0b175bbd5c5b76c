-- ===== src/Api/Health/Charges.antt =====
-- How the checks of `_health` in lambda_function.py lower the score, and what they say about it.
use connected_vehicle_health.Prelude.{
  ℕ, ◌+◌, ◌-◌, ◌*◌, ◌≤◌, ◌≡◌, refl, ap, sym, ◌∙◌, String, Bool, true, false, Option, none, some,
  List, [], ◌∷◌, ◌++◌, arith, append-nil, append_assoc, length, length-append, if◌then◌else◌,
}
use connected_vehicle_health.Prelude.Int.{ℤ, pos, ◌-ℤ◌}
use connected_vehicle_health.Json.{Value, Fields}
use connected_vehicle_health.Api.Values.{Numbers, number_field}
use connected_vehicle_health.Api.PyText.{Unicode}
use connected_vehicle_health.Api.Health.{
  Checkup, fine, warn, check_age, check_coolant, check_fuel, check_load, check_trim, check_voltage,
  check_dtcs, check_link, checkup, clamp_score, level_of, dtc_codes_of, link_state_of, health,
  age_seconds, received_ms,
}

-- From `h` to `h'` some warnings were added, and each of them cost between 5 and 40 points.
pub record Charged (h h' : Checkup) : Type 0 where
  pub points : ℕ
  pub added : List String
  pub lowered : h'.score ≡ h.score -ℤ pos points
  pub told : h'.warnings ≡ h.warnings ++ added
  pub at_least : 5 * length added ≤ points
  pub at_most : points ≤ 40 * length added

sub-zero : (z : ℤ) → z ≡ z -ℤ pos 0
unfolding ◌-ℤ◌
sub-zero z = ground arith

sub-sub : (z : ℤ) (m n : ℕ) → z -ℤ pos m -ℤ pos n ≡ z -ℤ pos (m + n)
unfolding ◌-ℤ◌
sub-sub z m n = ground arith

Charged-none : (h : Checkup) → Charged h h
Charged-none h = record {
  points = 0;
  added = [];
  lowered = sub-zero h.score;
  told = sym (append-nil h.warnings);
  at_least = omega arith;
  at_most = omega arith;
}

Charged-warn : (n : ℕ) (text : String) (h : Checkup) → 5 ≤ n → n ≤ 40 → Charged h (warn n text h)
unfolding warn
Charged-warn n text h low high = record {
  points = n;
  added = text ∷ [];
  lowered = refl;
  told = refl;
  at_least = omega arith;
  at_most = omega arith;
}

-- The status has no part in it.
Charged-status : (h h' : Checkup) (s : String) → Charged h h' → Charged h (record h' { status = s })
Charged-status h h' s c = record {
  points = c.points;
  added = c.added;
  lowered = c.lowered;
  told = c.told;
  at_least = c.at_least;
  at_most = c.at_most;
}

Charged-if :
    (b : Bool) (h x y : Checkup) → Charged h x → Charged h y → Charged h (if b then x else y)
Charged-if true h x y cx cy = cx
Charged-if false h x y cx cy = cy

Charged-trans : (h k l : Checkup) → Charged h k → Charged k l → Charged h l
Charged-trans h k l c d = record {
  points = c.points + d.points;
  added = c.added ++ d.added;
  lowered = d.lowered ∙ ap (λ z. z -ℤ pos d.points) c.lowered ∙ sub-sub h.score c.points d.points;
  told = d.told ∙ ap (λ t. t ++ d.added) c.told ∙ append_assoc h.warnings c.added d.added;
  at_least = omega (arith, c.at_least, d.at_least, length-append c.added d.added);
  at_most = omega (arith, c.at_most, d.at_most, length-append c.added d.added);
}

module _ (h : Checkup) where
  age-Charged : (age : Option ℕ) → Charged h (check_age age h)
  unfolding check_age
  age-Charged none =
      Charged-status h (warn 30 "Missing receive timestamp" h) "UNKNOWN"
        (Charged-warn 30 "Missing receive timestamp" h (omega arith) (omega arith))
  age-Charged (some age) =
      Charged-if _ h _ _
        (Charged-status h (warn 40 "No telemetry for more than 60 seconds" h) "OFFLINE"
          (Charged-warn 40 "No telemetry for more than 60 seconds" h (omega arith) (omega arith)))
        (Charged-if _ h _ _
          (Charged-status h (warn 15 "Telemetry is stale" h) "STALE"
            (Charged-warn 15 "Telemetry is stale" h (omega arith) (omega arith)))
          (Charged-none h))

  two :
      (b c : Bool) (m n : ℕ) (s t : String)
      → 5 ≤ m
      → m ≤ 40
      → 5 ≤ n
      → n ≤ 40
      → Charged h (if b then warn m s h else if c then warn n t h else h)
  two b c m n s t lm hm ln hn =
      Charged-if b h (warn m s h) (if c then warn n t h else h) (Charged-warn m s h lm hm)
        (Charged-if c h (warn n t h) h (Charged-warn n t h ln hn) (Charged-none h))

  link-Charged : (link_state : String) → Charged h (check_link link_state h)
  unfolding check_link
  link-Charged link_state =
      Charged-if _ h _ _
        (Charged-status h (warn 25 "Vehicle OBD link offline" h) "OFFLINE"
          (Charged-warn 25 "Vehicle OBD link offline" h (omega arith) (omega arith)))
        (Charged-if _ h _ _
          (Charged-status h (warn 10 "Vehicle OBD data stale" h) "STALE"
            (Charged-warn 10 "Vehicle OBD data stale" h (omega arith) (omega arith)))
          (Charged-none h))

  module _ (A : Numbers) where
    open A use {Num}

    coolant-Charged : (coolant : Option Num) → Charged h (check_coolant A coolant h)
    unfolding check_coolant
    coolant-Charged none = Charged-none h
    coolant-Charged (some c) =
        two _ _ 30 15 _ _ (omega arith) (omega arith) (omega arith) (omega arith)

    fuel-Charged : (fuel : Option Num) → Charged h (check_fuel A fuel h)
    unfolding check_fuel
    fuel-Charged none = Charged-none h
    fuel-Charged (some c) =
        two _ _ 20 10 _ _ (omega arith) (omega arith) (omega arith) (omega arith)

    load-Charged : (load : Option Num) → Charged h (check_load A load h)
    unfolding check_load
    load-Charged none = Charged-none h
    load-Charged (some c) =
        Charged-if _ h _ _ (Charged-warn 5 "Engine load high" h (omega arith) (omega arith))
          (Charged-none h)

    trim-Charged : (short long : Option Num) → Charged h (check_trim A short long h)
    unfolding check_trim
    trim-Charged short none = Charged-none h
    trim-Charged none (some l) =
        Charged-if _ h _ _
          (Charged-warn 10 "Long-term fuel trim outside ±25%" h (omega arith) (omega arith))
          (Charged-none h)
    trim-Charged (some s) (some l) =
        two _ _ 10 5 _ _ (omega arith) (omega arith) (omega arith) (omega arith)

    voltage-Charged : (voltage rpm : Option Num) → Charged h (check_voltage A voltage rpm h)
    unfolding check_voltage
    voltage-Charged none rpm = Charged-none h
    voltage-Charged (some v) none = Charged-none h
    voltage-Charged (some v) (some r) =
        Charged-if _ h _ _
          (two _ _ 20 15 _ _ (omega arith) (omega arith) (omega arith) (omega arith))
          (Charged-none h)

    dtcs-Charged : (codes : List String) → Charged h (check_dtcs A codes h)
    unfolding check_dtcs
    dtcs-Charged [] = Charged-none h
    dtcs-Charged (c ∷ cs) = Charged-warn _ _ h (omega arith) (omega arith)

module _ (A : Numbers) (render : Value (A.Num) → String) (u : Unicode) where
  open A use {Num}

  checkup-Charged : (age : Option ℕ) (t : Fields Num) → Charged fine (checkup A render u age t)
  unfolding checkup
  checkup-Charged age t =
      let h1 = check_age age fine in
      let h2 = check_coolant A (number_field A "coolant_c" t) h1 in
      let h3 = check_fuel A (number_field A "fuel_level_pct" t) h2 in
      let h4 = check_load A (number_field A "engine_load_pct" t) h3 in
      let short = number_field A "short_fuel_trim_b1_pct" t in
      let long = number_field A "long_fuel_trim_b1_pct" t in
      let h5 = check_trim A short long h4 in
      let voltage = number_field A "control_module_voltage_v" t in
      let rpm = number_field A "engine_rpm" t in
      let h6 = check_voltage A voltage rpm h5 in
      let h7 = check_dtcs A (dtc_codes_of A render u t) h6 in
      let h8 = check_link (link_state_of A render u t) h7 in
      Charged-trans fine h7 h8
        (Charged-trans fine h6 h7
          (Charged-trans fine h5 h6
            (Charged-trans fine h4 h5
              (Charged-trans fine h3 h4
                (Charged-trans fine h2 h3
                  (Charged-trans fine h1 h2 (age-Charged fine age)
                    (coolant-Charged h1 A (number_field A "coolant_c" t)))
                  (fuel-Charged h2 A (number_field A "fuel_level_pct" t)))
                (load-Charged h3 A (number_field A "engine_load_pct" t)))
              (trim-Charged h4 A short long))
            (voltage-Charged h5 A voltage rpm))
          (dtcs-Charged h6 A (dtc_codes_of A render u t)))
        (link-Charged h7 (link_state_of A render u t))

  clamp-sub : (z : ℤ) (n : ℕ) → z ≡ pos 100 -ℤ pos n → clamp_score z ≡ 100 - n
  unfolding clamp_score ◌-ℤ◌
  clamp-sub z n e = rw e (ground arith)

  -- The score of the report is 100 less some points, at least 0, and the points are explained by
  -- the warnings: each warning stands for 5 to 40 points, and no point is taken without one. The
  -- level follows from the score.
  pub health-charges :
      (now_ms : ℕ) (received : Option ℤ) (t : Fields Num)
      → (points : ℕ) × ((health A render u now_ms received t).health_score ≡ 100 - points)
        × (5 * length (health A render u now_ms received t).warnings ≤ points)
        × (points ≤ 40 * length (health A render u now_ms received t).warnings)
        × ((health A render u now_ms received t).health_level ≡ level_of (100 - points))
  unfolding health
  health-charges now_ms received t =
      let age = age_seconds now_ms (received_ms received) in
      let c = checkup-Charged age t in
      (
        c.points,
        clamp-sub (checkup A render u age t).score c.points c.lowered,
        rw c.told c.at_least,
        rw c.told c.at_most,
        ap level_of (clamp-sub (checkup A render u age t).score c.points c.lowered),
      )
