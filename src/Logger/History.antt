-- ===== src/Logger/History.antt =====
-- A log from its creation on: whatever is recorded and trimmed, it is a window on the history.
use mathlib.Core.List.{foldl}
use connected_vehicle_health.Prelude.{
  ℕ, ◌<◌, ◌≡◌, refl, ap, ap₂, ◌∙◌, Option, some, none, List, [], ◌∷◌, ◌++◌, arith,
}
use connected_vehicle_health.Prelude.Int.{ℤ, at_least_zero}
use connected_vehicle_health.Logger.{Entry, GatewayLogger, init, add, trim, entries}
use connected_vehicle_health.Logger.Contents.{
  last, contents, IsValid, entries-eq-last, trim-eq-last, add-eq-last,
}

-- A call that changes the log: `info`, `warning` and `error` record an entry.
pub data Call : Type 0 where
  record_entry : Entry → Call
  trim_to : ℤ → Call

unfoldable pub call : Call → GatewayLogger → Option GatewayLogger
call (record_entry e) l = add e l
call (trim_to keep) l = trim keep l

unfoldable pub run : List Call → GatewayLogger → Option GatewayLogger
unfolding call
run [] l = some l
run (c ∷ cs) l = elim (call c l) [ none ↦ none | some l' ↦ run cs l' ]

-- The specification: a plain list, oldest first, that forgets its oldest records.
abbrev pub note : ℕ → List Entry → Call → List Entry
note capacity xs (record_entry e) = last capacity (xs ++ e ∷ [])
note capacity xs (trim_to keep) = last (at_least_zero keep) xs

call-note :
    (l : GatewayLogger) (c : Call)
    → IsValid l
    → (l' : GatewayLogger) × (call c l ≡ some l')
      × (contents l' ≡ note l.capacity (contents l) c)
      × IsValid l'
      × (l'.capacity ≡ l.capacity)
unfolding call
call-note l (record_entry e) v = add-eq-last l v e
call-note l (trim_to keep) v = trim-eq-last l v keep

run-note :
    (cs : List Call) (l : GatewayLogger)
    → IsValid l
    → (l' : GatewayLogger) × (run cs l ≡ some l')
      × (contents l' ≡ foldl (note l.capacity) (contents l) cs)
      × IsValid l'
unfolding run
run-note [] l v = (l, refl, refl, v)
run-note (c ∷ cs) l v =
    let (l', e, same, v', cap) = call-note l c v in
    let (l'', e', same', v'') = run-note cs l' v' in
    (l'', rw (e, run) e', rw (cap, same) at same', v'')

init-IsValid : (capacity : ℕ) → 0 < capacity → IsValid (init capacity)
unfolding init
init-IsValid capacity h = record {
  positive = h;
  bounded = omega arith;
  next_in = h;
  young = λ _. refl;
}

contents-init : (capacity : ℕ) → contents (init capacity) ≡ []
unfolding contents init
contents-init capacity = ground arith

capacity-init : (capacity : ℕ) → (init capacity).capacity ≡ capacity
unfolding init
capacity-init capacity = refl

-- For a positive capacity no sequence of records and trims is ever an IndexError, and afterwards
-- `entries(limit)` returns the newest `limit` records of the plain list that the same calls leave:
-- a record appends and keeps the last `capacity`, a trim keeps the last `keep`.
pub run-refines :
    (capacity : ℕ) (cs : List Call) (limit : ℤ)
    → 0 < capacity
    → (l : GatewayLogger) × (run cs (init capacity) ≡ some l)
      × (entries limit l ≡ some (last (at_least_zero limit) (foldl (note capacity) [] cs)))
run-refines capacity cs limit h =
    let (l, e, same, v) = run-note cs (init capacity) (init-IsValid capacity h) in
    (
      l,
      e,
      entries-eq-last l v limit
          ∙ ap (λ xs. some (last (at_least_zero limit) xs))
              (same
                ∙ ap₂ (λ k xs. foldl (note k) xs cs) (capacity-init capacity)
                    (contents-init capacity)),
    )
