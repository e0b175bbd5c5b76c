-- ===== src/Logger/Tests.antt =====
-- Runs of logger.py on a ring of three records, and the theorems at them.
use mathlib.Core.List.{foldl}
use connected_vehicle_health.Prelude.{◌≡◌, refl, String, some, none, List, [], ◌∷◌, arith}
use connected_vehicle_health.Prelude.Int.{pos, negsuc}
use connected_vehicle_health.Logger.{Entry, GatewayLogger, init, add, entries}
use connected_vehicle_health.Logger.Contents.{last, IsValid}
use connected_vehicle_health.Logger.History.{Call, record_entry, run, note, run-refines}

abbrev entry : String → Entry
entry message = record { timestamp = "2026-01-01 00:00:00"; level = "INFO"; message = message }

-- Four records and a trim to one, on a ring of three.
abbrev calls : List Call
calls =
    record_entry (entry "a")
    ∷ record_entry (entry "b")
    ∷ record_entry (entry "c")
    ∷ record_entry (entry "d")
    ∷ []

-- The ring after `calls`: full, its oldest record at index 1.
abbrev wrapped : GatewayLogger
wrapped = record { capacity = 3; items = entry "d" ∷ entry "b" ∷ entry "c" ∷ []; next = 1 }

run-calls : run calls (init 3) ≡ some wrapped
unfolding run init add
run-calls = refl

entries-wrapped : entries (pos 2) wrapped ≡ some (entry "c" ∷ entry "d" ∷ [])
unfolding entries
entries-wrapped = refl

entries_negative : entries (negsuc 4) wrapped ≡ some []
unfolding entries
entries_negative = refl

-- A log of no capacity raises an IndexError on its first record.
add_no_capacity : add (entry "a") (init 0) ≡ none
unfolding add init
add_no_capacity = refl

wrapped-IsValid : IsValid wrapped
wrapped-IsValid = record {
  positive = omega arith;
  bounded = omega arith;
  next_in = omega arith;
  young = λ h. absurd (omega arith);
}

run-refines_example :
    (l : GatewayLogger) × (run calls (init 3) ≡ some l)
    × (entries (pos 2) l ≡ some (last 2 (foldl (note 3) [] calls)))
run-refines_example = run-refines 3 calls (pos 2) (omega arith)
