-- ===== src/Devices/Evict.antt =====
-- `_evict_oldest` of device_manager.py: which device it removes.
use connected_vehicle_health.Prelude.{
  ◌≡◌, ◌≢◌, refl, sym, subst, String, true, false, some, List, [], ◌∷◌, ◌⊎◌, inl, inr, arith, All,
  Bool-cases, eq_refl,
}
use connected_vehicle_health.Prelude.Assoc.{lookup, remove, Distinct, lookup_later}
use connected_vehicle_health.Prelude.TextOrder.{
  text_lt, text_lt_trans, text_lt_of_not, text_lt_irrefl,
}
use connected_vehicle_health.Devices.{Device, scan_oldest, evict_oldest}

-- No device of the table was seen before the time `seen`.
abbrev pub NoneBefore : String → List (String × Device) → Type 0
NoneBefore seen = All (λ e. text_lt e.1.last_seen seen ≡ false)

-- The key `k` is the starting one, or stands in the table, and `seen` is its time.
abbrev Chosen : String → String → String → String → List (String × Device) → Type 0
Chosen k seen k₀ seen₀ m =
    ((k ≡ k₀) × (seen ≡ seen₀)) ⊎ ((d : Device) × (lookup k m ≡ some d) × (d.last_seen ≡ seen))

not_before : (a b c : String) → text_lt a b ≡ false → text_lt b c ≡ false → text_lt a c ≡ false
not_before a b c h k = ground (arith, text_lt_of_not a b c)

before_not : (a b c : String) → text_lt a b ≡ true → text_lt a c ≡ false → text_lt b c ≡ false
before_not a b c h k = ground (arith, text_lt_trans a b c)

scan-oldest :
    (k₀ seen₀ : String) (m : List (String × Device))
    → Distinct m
    → (k : String) × (seen : String) × (scan_oldest (some (k₀, seen₀)) m ≡ some k)
      × (text_lt seen₀ seen ≡ false)
      × NoneBefore seen m
      × Chosen k seen k₀ seen₀ m
unfolding scan_oldest lookup
scan-oldest k₀ seen₀ [] d = (k₀, seen₀, refl, text_lt_irrefl seen₀, tt, inl (refl, refl))
scan-oldest k₀ seen₀ ((key, value) ∷ rest) d = elim (Bool-cases (text_lt value.last_seen seen₀)) [
  | inl older ↦
      let (k, seen, e, nb, all, ch) = scan-oldest key value.last_seen rest d.1 in
      (
        k,
        seen,
        rw (older, scan_oldest) e,
        before_not _ _ _ older nb,
        (nb, all),
        elim ch [
          | inl (p, q) ↦ inr (value, rw p (rw (eq_refl key)), sym q)
          | inr (w, found, at) ↦ inr (w, lookup_later k key value w rest d.0 found, at)
        ],
      )
  | inr newer ↦
      let (k, seen, e, nb, all, ch) = scan-oldest k₀ seen₀ rest d.1 in
      (
        k,
        seen,
        rw (newer, scan_oldest) e,
        nb,
        (not_before _ _ _ newer nb, all),
        elim ch [
          | inl p ↦ inl p
          | inr (w, found, at) ↦ inr (w, lookup_later k key value w rest d.0 found, at)
        ],
      )
]

-- What an eviction from a table that is not empty removes: one device, and none was seen before it.
pub evict-oldest_lem :
    (m : List (String × Device))
    → Distinct m
    → m ≢ []
    → (k : String) × (d : Device) × (evict_oldest m ≡ remove k m)
      × (lookup k m ≡ some d)
      × NoneBefore d.last_seen m
unfolding evict_oldest scan_oldest lookup
evict-oldest_lem [] d ne = absurd (ne refl)
evict-oldest_lem ((key, value) ∷ rest) d ne =
    let (k, seen, e, nb, all, ch) = scan-oldest key value.last_seen rest d.1 in
    elim ch [
      | inl (p, q) ↦ (
        k,
        value,
        rw e,
        rw p (rw (eq_refl key)),
        subst (λ s. NoneBefore s ((key, value) ∷ rest)) q (nb, all),
      )
      | inr (w, found, at) ↦ (
        k,
        w,
        rw e,
        lookup_later k key value w rest d.0 found,
        subst (λ s. NoneBefore s ((key, value) ∷ rest)) (sym at) (nb, all),
      )
    ]
