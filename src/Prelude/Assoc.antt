-- ===== src/Prelude/Assoc.antt =====
-- A Python dict with text keys, as an association list in the order of insertion.
use Prim.Native.String.{String}
use mathlib.Core.Path.{◌≡◌, refl}
use mathlib.Core.Option.{Option, none, some}
use mathlib.Core.List.{List, [], ◌∷◌, ◌++◌}
use native.Mathlib.Omega.{arith}
use Prim.Native.Nat.{◌+◌}
use text.Mathlib.Text.{◌==◌}
use text.Mathlib.TextEquality.{eq_iff}
use connected_vehicle_health.Prelude.Tests.{if◌then◌else◌}
use connected_vehicle_health.Prelude.Lists.{length}

module _ {ℓ} {V : Type ℓ} where
  -- `d.get(key)`
  unfoldable pub lookup : String → List (String × V) → Option V
  lookup k [] = none
  lookup k ((j, v) ∷ m) = if j == k then some v else lookup k m

  -- `del d[key]`
  unfoldable pub remove : String → List (String × V) → List (String × V)
  remove k [] = []
  remove k ((j, v) ∷ m) = if j == k then m else (j, v) ∷ remove k m

  -- Assignments to the object stored at a key.
  unfoldable pub modify : String → (V → V) → List (String × V) → List (String × V)
  modify k f [] = []
  modify k f ((j, v) ∷ m) = if j == k then (j, f v) ∷ m else (j, v) ∷ modify k f m

  -- No key stands twice.
  abbrev pub Distinct : List (String × V) → Type ℓ
  Distinct [] = Unit
  Distinct ((j, v) ∷ m) = (lookup j m ≡ none) × Distinct m

  pub lookup-append :
      (k : String) (m : List (String × V)) (j : String) (v : V)
      → lookup k (m ++ (j, v) ∷ [])
        ≡ elim (lookup k m) [ some w ↦ some w | none ↦ if j == k then some v else none ]
  unfolding lookup
  lookup-append k [] j v = refl
  lookup-append k ((i, w) ∷ m) j v = ground (arith, lookup-append k m j v)

  pub lookup-modify :
      (k j : String) (f : V → V) (m : List (String × V))
      → lookup j (modify k f m)
        ≡ (if k == j then elim (lookup j m) [ some v ↦ some (f v) | none ↦ none ] else lookup j m)
  unfolding lookup modify
  lookup-modify k j f [] = ground arith
  lookup-modify k j f ((i, w) ∷ m) =
      ground (arith, eq_iff k j, eq_iff i k, eq_iff i j, lookup-modify k j f m)

  pub lookup-remove :
      (k j : String) (m : List (String × V))
      → Distinct m
      → lookup j (remove k m) ≡ (if k == j then none else lookup j m)
  unfolding lookup remove
  lookup-remove k j [] d = ground arith
  lookup-remove k j ((i, w) ∷ m) d =
      ground (arith, eq_iff k j, eq_iff i k, eq_iff i j, lookup-remove k j m d.1)

  pub length-modify :
      (k : String) (f : V → V) (m : List (String × V)) → length (modify k f m) ≡ length m
  unfolding modify
  length-modify k f [] = refl
  length-modify k f ((i, w) ∷ m) = ground (arith, length-modify k f m)

  pub length-remove :
      (k : String) (m : List (String × V)) (v : V)
      → lookup k m ≡ some v
      → length (remove k m) + 1 ≡ length m
  unfolding lookup remove
  length-remove k [] v h = ground arith
  length-remove k ((i, w) ∷ m) v h = ground (arith, length-remove k m v)

  pub modify-Distinct :
      (k : String) (f : V → V) (m : List (String × V)) → Distinct m → Distinct (modify k f m)
  unfolding modify
  modify-Distinct k f [] d = tt
  modify-Distinct k f ((i, w) ∷ m) d =
      ground (arith, modify-Distinct k f m d.1, lookup-modify k i f m, eq_iff k i, eq_iff i k)

  pub remove-Distinct : (k : String) (m : List (String × V)) → Distinct m → Distinct (remove k m)
  unfolding remove
  remove-Distinct k [] d = tt
  remove-Distinct k ((i, w) ∷ m) d =
      ground (arith, remove-Distinct k m d.1, lookup-remove k i m d.1, eq_iff k i, eq_iff i k)

  pub append-Distinct :
      (m : List (String × V)) (j : String) (v : V)
      → Distinct m
      → lookup j m ≡ none
      → Distinct (m ++ (j, v) ∷ [])
  unfolding lookup
  append-Distinct [] j v d h = (refl, tt)
  append-Distinct ((i, w) ∷ m) j v d h =
      ground (arith, append-Distinct m j v d.1, lookup-append i m j v, eq_iff i j, eq_iff j i)

  -- What stands further down is found there, if the first key stands nowhere else.
  pub lookup_later :
      (k j : String) (v w : V) (m : List (String × V))
      → lookup j m ≡ none
      → lookup k m ≡ some w
      → lookup k ((j, v) ∷ m) ≡ some w
  unfolding lookup
  lookup_later k j v w m h found = ground (arith, eq_iff j k)
