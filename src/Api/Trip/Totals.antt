-- ===== src/Api/Trip/Totals.antt =====
-- The sums that `_trip_estimate` of lambda_function.py builds, for floats that keep the usual laws.
use connected_vehicle_health.Prelude.{
  ℕ, ◌+◌, ◌≤◌, ◌≡◌, Bool, true, false, Option, none, some, arith, Bool-cases, Option-cases, inl,
  inr, if◌then◌else◌, subst,
}
use connected_vehicle_health.Prelude.Int.{ℤ, ltb_ℤ, ◌-ℤ◌}
use connected_vehicle_health.Api.Trip.{
  Floats, Source, Sample, Trip, zero_f, smaller, non_negative, rate_of, add_interval, add_time,
}

-- Laws of IEEE floats, without a NaN: a comparison with one is false.
pub record IsFloat (A : Floats) : Type 0 where
  pub le_trans : (a b c : A.F) → A.le a b ≡ true → A.le b c ≡ true → A.le a c ≡ true
  pub le-lt : (a b : A.F) → A.le a b ≡ true → A.lt b a ≡ false
  pub literal_le : (n k : ℕ) → A.le (A.literal 0 0) (A.literal n k) ≡ true
  pub add_mono :
      (a b d : A.F)
      → A.le (A.literal 0 0) a ≡ true
      → A.le a b ≡ true
      → A.le (A.literal 0 0) d ≡ true
      → A.le (A.add a d) (A.add b d) ≡ true
  pub add_grows :
      (a b d : A.F)
      → A.le (A.literal 0 0) a ≡ true
      → A.le a b ≡ true
      → A.le (A.literal 0 0) d ≡ true
      → A.le a (A.add b d) ≡ true
  pub div_literal :
      (a : A.F) (n : ℕ)
      → 1 ≤ n
      → n ≤ 3600
      → A.le (A.literal 0 0) a ≡ true
      → A.le (A.literal 0 0) (A.div a (A.literal n 0)) ≡ true
  pub lt_le : (a b : A.F) → A.lt a b ≡ true → A.le a b ≡ true
  pub literal_refl : (n k : ℕ) → A.le (A.literal n k) (A.literal n k) ≡ true
  -- Gasoline per mass of air.
  pub flow_rate :
      (a : A.F)
      → A.le (A.literal 0 0) a ≡ true
      → A.le
          (A.literal 0 0)
          (A.div (A.mul a (A.literal 3600 0)) (A.mul (A.literal 147 1) (A.literal 745 0)))
        ≡ true
  pub seconds_le : (a b : ℤ) → ltb_ℤ a b ≡ true → A.le (A.literal 0 0) (A.seconds (b -ℤ a)) ≡ true
  pub mul_seconds :
      (x : A.F) (a b : ℤ)
      → ltb_ℤ a b ≡ true
      → A.le (A.literal 0 0) x ≡ true
      → A.le (A.literal 0 0) (A.mul x (A.seconds (b -ℤ a))) ≡ true

module _ (A : Floats) (laws : IsFloat A) where
  open A use {F, literal, lt, le, add, mul, div, seconds}
  open laws use {
    le_trans, le-lt, literal_le, add_mono, add_grows, div_literal, flow_rate, seconds_le,
    mul_seconds,
  }

  infix 50 ◌≤F◌
  abbrev pub ◌≤F◌ : F → F → Type 0
  a ≤F b = le a b ≡ true

  -- Idle time and fuel are parts of the totals, and the valid time of the possible one.
  abbrev pub IsSummed : {N : Type 0} → Trip N F → Type 0
  IsSummed trip =
      (zero_f A ≤F trip.idle_fuel_l)
      × (trip.idle_fuel_l ≤F trip.fuel_l)
      × (zero_f A ≤F trip.idle_seconds)
      × (trip.idle_seconds ≤F trip.valid_seconds)
      × (trip.valid_seconds ≤F trip.possible_seconds)

  -- The fuel rate of a sample is not negative.
  abbrev pub Rated : Option (Sample F) → Type 0
  Rated none = Unit
  Rated (some sample) = zero_f A ≤F sample.rate

  abbrev pub RateKnown : Option (F × Source) → Type 0
  RateKnown none = Unit
  RateKnown (some (rate, source)) = zero_f A ≤F rate

  abbrev pub Known : Option F → Type 0
  Known none = Unit
  Known (some x) = zero_f A ≤F x

  non_negative-Known : (o : Option F) → Known (non_negative A o)
  unfolding non_negative
  non_negative-Known none = tt
  non_negative-Known (some x) = elim (Bool-cases (le (zero_f A) x)) [
    | inl fits ↦ rw fits fits
    | inr below ↦ rw below tt
  ]

  pub rate_of-RateKnown : (direct maf : Option F) → RateKnown (rate_of A direct maf)
  unfolding rate_of
  rate_of-RateKnown direct maf =
      let known_direct = non_negative-Known direct in
      let known_maf = non_negative-Known maf in
      elim (Option-cases (non_negative A direct)) [
        | inr (rate, at) ↦ rw (rate_of, at) (subst Known at known_direct)
        | inl missing ↦ elim (Option-cases (non_negative A maf)) [
          | inl nothing ↦ rw (rate_of, missing, nothing) tt
          | inr (flow, at) ↦ rw (rate_of, missing, at) (flow_rate flow (subst Known at known_maf))
        ]
      ]

  zero_zero : zero_f A ≤F zero_f A
  zero_zero = literal_le 0 0

  smaller_le : (a b : F) → zero_f A ≤F a → zero_f A ≤F b → zero_f A ≤F smaller A a b
  unfolding smaller
  smaller_le a b h k = elim (Bool-cases (lt b a)) [ inl less ↦ rw less k | inr other ↦ rw other h ]

  module _ {N : Type 0} where
    -- The sums after an interval of `dt` seconds, of which an idle one counts twice.
    grown-IsSummed :
        (dt litres : F) (idle : Bool) (trip : Trip N F)
        → zero_f A ≤F dt
        → zero_f A ≤F litres
        → IsSummed trip
        → (zero_f A ≤F (if idle then add trip.idle_fuel_l litres else trip.idle_fuel_l))
          × ((if idle then add trip.idle_fuel_l litres else trip.idle_fuel_l)
              ≤F add trip.fuel_l litres)
          × (zero_f A ≤F (if idle then add trip.idle_seconds dt else trip.idle_seconds))
          × ((if idle then add trip.idle_seconds dt else trip.idle_seconds)
              ≤F add trip.valid_seconds dt)
          × (add trip.valid_seconds dt ≤F add trip.possible_seconds dt)
    grown-IsSummed dt litres true trip d l (f0, f1, s0, s1, v) = (
      add_grows _ _ _ zero_zero f0 l,
      add_mono _ _ _ f0 f1 l,
      add_grows _ _ _ zero_zero s0 d,
      add_mono _ _ _ s0 s1 d,
      add_mono _ _ _ (le_trans _ _ _ s0 s1) v d,
    )
    grown-IsSummed dt litres false trip d l (f0, f1, s0, s1, v) = (
      f0,
      add_grows _ _ _ f0 f1 l,
      s0,
      add_grows _ _ _ s0 s1 d,
      add_mono _ _ _ (le_trans _ _ _ s0 s1) v d,
    )

    pub add_time-IsSummed :
        (old new : Sample F) (trip : Trip N F)
        → ltb_ℤ old.time new.time ≡ true
        → zero_f A ≤F old.rate
        → zero_f A ≤F new.rate
        → IsSummed trip
        → IsSummed (add_time A (seconds (new.time -ℤ old.time)) old new trip)
    unfolding add_time add_interval smaller
    add_time-IsSummed old new trip later o n h =
        let dt = seconds (new.time -ℤ old.time) in
        let d = seconds_le old.time new.time later in
        let mean =
          div_literal (add old.rate new.rate) 2 (omega arith) (omega arith)
            (add_grows _ _ _ zero_zero o n) in
        let litres =
          div_literal _ 3600 (omega arith) (omega arith)
            (mul_seconds _ old.time new.time later mean) in
        elim (Bool-cases (le dt (literal 15 0))) [
          | inl short ↦
              rw (short, le-lt _ _ short)
                (grown-IsSummed dt _
                  (lt (div (add old.speed new.speed) (literal 2 0)) (literal 1 0)) trip d litres h)
          | inr long ↦ rw long (
            h.0,
            h.1,
            h.2,
            h.3,
            add_grows _ _ _ (le_trans _ _ _ h.2 h.3) h.4
                (smaller_le dt (literal 15 0) d (literal_le 15 0)),
          )
        ]

    pub add_time-counts :
        (dt : F) (old new : Sample F) (trip : Trip N F)
        → (add_time A dt old new trip).valid_intervals + (add_time A dt old new trip).gap_count
          ≡ trip.valid_intervals + trip.gap_count + 1
    unfolding add_time add_interval
    add_time-counts dt old new trip = elim (Bool-cases (le dt (literal 15 0))) [
      | inl short ↦ rw short (omega arith)
      | inr long ↦ rw long (omega arith)
    ]
