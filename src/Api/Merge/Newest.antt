-- ===== src/Api/Merge/Newest.antt =====
-- `_merge` of lambda_function.py never lets an older record overwrite a newer one.
use connected_vehicle_health.Prelude.{
  ◌≡◌, refl, ap, ◌∙◌, String, Option, none, some, List, [], ◌∷◌, arith, str_eq, eq_iff,
  if◌then◌else◌,
}
use connected_vehicle_health.Prelude.Assoc.{lookup, lookup-append}
use connected_vehicle_health.Json.{Value, Fields, end, field, get}
use connected_vehicle_health.Api.Merge.{
  data_of, snoc, absorb, class_of, note_class, merge_from, merge,
}

-- The first of two results.
abbrev pub or_else {ℓ} : {A : Type ℓ} → Option A → Option A → Option A
or_else (some a) b = some a
or_else none b = b

or_else_assoc {ℓ} :
    {A : Type ℓ} (a b c : Option A) → or_else (or_else a b) c ≡ or_else a (or_else b c)
or_else_assoc none b c = refl
or_else_assoc (some x) b c = refl

module _ {N : Type 0} where
  get-snoc :
      (j k : String) (v : Value N) (fs : Fields N)
      → get j (snoc k v fs) ≡ or_else (get j fs) (if str_eq k j then some v else none)
  unfolding get snoc
  get-snoc j k v end = refl
  get-snoc j k v (field i w fs) = ground (arith, get-snoc j k v fs)

  get-absorb_one :
      (j name : String) (value : Value N) (t : Fields N)
      → get j (elim (get name t) [ none ↦ snoc name value t | some _ ↦ t ])
        ≡ or_else (get j t) (if str_eq name j then some value else none)
  get-absorb_one j name value t = ground (arith, get-snoc j name value t, eq_iff name j)

  -- What was there stays, and the rest comes from the newly read data.
  get-absorb : (j : String) (t fs : Fields N) → get j (absorb t fs) ≡ or_else (get j t) (get j fs)
  unfolding absorb get
  get-absorb j t end = ground arith
  get-absorb j t (field name value fs) =
      get-absorb j (elim (get name t) [ none ↦ snoc name value t | some _ ↦ t ]) fs
      ∙ ground (arith, get-absorb_one j name value t)

module _ {N : Type 0} (render : Value N → String) (loads : String → Option (Value N)) where
  -- The value of a name in the first record, newest first, that has one.
  unfoldable pub newest : String → List (Fields N) → Option (Value N)
  newest name [] = none
  newest name (r ∷ rs) = or_else (get name (data_of loads (get "data" r))) (newest name rs)

  -- The first record, newest first, of a data class.
  unfoldable pub newest_of_class : String → List (Fields N) → Option (Fields N)
  newest_of_class c [] = none
  newest_of_class c (r ∷ rs) = if str_eq (class_of render r) c then some r else newest_of_class c rs

  get-merge_from :
      (name : String) (t : Fields N) (l : List (String × Fields N)) (rs : List (Fields N))
      → get name (merge_from render loads t l rs).0 ≡ or_else (get name t) (newest name rs)
  unfolding merge_from newest
  get-merge_from name t l [] = ground arith
  get-merge_from name t l (r ∷ rs) =
      get-merge_from name (absorb t (data_of loads (get "data" r))) (note_class render l r) rs
      ∙ ap (λ o. or_else o (newest name rs)) (get-absorb name t (data_of loads (get "data" r)))
      ∙ or_else_assoc (get name t) (get name (data_of loads (get "data" r))) (newest name rs)

  lookup-note_class :
      (c : String) (l : List (String × Fields N)) (r : Fields N)
      → lookup c (note_class render l r)
        ≡ or_else (lookup c l) (if str_eq (class_of render r) c then some r else none)
  unfolding note_class
  lookup-note_class c l r =
      ground (arith, lookup-append c l (class_of render r) r, eq_iff (class_of render r) c)

  lookup-merge_from :
      (c : String) (t : Fields N) (l : List (String × Fields N)) (rs : List (Fields N))
      → lookup c (merge_from render loads t l rs).1 ≡ or_else (lookup c l) (newest_of_class c rs)
  unfolding merge_from newest_of_class
  lookup-merge_from c t l [] = ground arith
  lookup-merge_from c t l (r ∷ rs) =
      lookup-merge_from c (absorb t (data_of loads (get "data" r))) (note_class render l r) rs
      ∙ ground (arith, lookup-note_class c l r)

  -- The merged telemetry holds for each name the value of the newest record that has one, and the
  -- second result holds for each data class its newest record. The records come newest first.
  pub merge_lem :
      (records : List (Fields N))
      → ((name : String) → get name (merge render loads records).0 ≡ newest name records)
        × ((c : String) → lookup c (merge render loads records).1 ≡ newest_of_class c records)
  unfolding merge get lookup
  merge_lem records =
      (λ name. get-merge_from name end [] records, λ c. lookup-merge_from c end [] records)
