-- ===== src/Api/Dtc/Clean.antt =====
-- Which codes `_valid_dtc_codes` of lambda_function.py reports, and how often.
use connected_vehicle_health.Prelude.{
  ◌≡◌, refl, ◌∙◌, String, Bool, false, not, ◌&&◌, ◌||◌, some, List, [], ◌∷◌, ◌++◌, arith,
  Bool-cases, inl, inr, str_eq, eq_iff, if◌then◌else◌,
}
use connected_vehicle_health.Json.{Value, Items, arr, nil, cons}
use connected_vehicle_health.Api.PyText.{Unicode}
use connected_vehicle_health.Api.Dtc.{is_code, contains, normal, collect, valid_dtc_codes}

-- No code stands twice.
abbrev pub NoRepeat : List String → Type 0
NoRepeat [] = Unit
NoRepeat (x ∷ xs) = (contains x xs ≡ false) × NoRepeat xs

contains-snoc :
    (code x : String) (xs : List String)
    → contains code (xs ++ x ∷ []) ≡ (contains code xs || str_eq x code)
unfolding contains
contains-snoc code x [] = ground arith
contains-snoc code x (y ∷ xs) = ground (arith, contains-snoc code x xs)

snoc-NoRepeat :
    (x : String) (xs : List String) → contains x xs ≡ false → NoRepeat xs → NoRepeat (xs ++ x ∷ [])
unfolding contains
snoc-NoRepeat x [] h r = (refl, tt)
snoc-NoRepeat x (y ∷ xs) h r = (
  ground (arith, contains-snoc y x xs, eq_iff x y, eq_iff y x),
  snoc-NoRepeat x xs (ground arith) r.1,
)

module _ {N : Type 0} (render : Value N → String) (u : Unicode) where
  -- An element of the reported list is this code, once it is stripped and in capitals.
  unfoldable pub occurs : String → Items N → Bool
  occurs code nil = false
  occurs code (cons raw rest) = str_eq (normal render u raw) code || occurs code rest

  abbrev added : List String → String → List String
  added result c = if is_code c && not (contains c result) then result ++ c ∷ [] else result

  contains-added :
      (code : String) (result : List String) (c : String)
      → contains code (added result c) ≡ (contains code result || is_code code && str_eq c code)
  contains-added code result c = ground (arith, contains-snoc code c result, eq_iff c code)

  contains-collect :
      (code : String) (result : List String) (items : Items N)
      → contains code (collect render u result items)
        ≡ (contains code result || is_code code && occurs code items)
  unfolding collect occurs
  contains-collect code result nil = ground arith
  contains-collect code result (cons raw rest) =
      contains-collect code (added result (normal render u raw)) rest
      ∙ ground (arith, contains-added code result (normal render u raw))

  added-NoRepeat : (result : List String) (c : String) → NoRepeat result → NoRepeat (added result c)
  added-NoRepeat result c r = elim (Bool-cases (is_code c)) [
    | inr bad ↦ rw bad r
    | inl good ↦ elim (Bool-cases (contains c result)) [
      | inl old ↦ rw (good, old) r
      | inr new ↦ rw (good, new) (snoc-NoRepeat c result new r)
    ]
  ]

  collect-NoRepeat :
      (result : List String) (items : Items N)
      → NoRepeat result
      → NoRepeat (collect render u result items)
  unfolding collect
  collect-NoRepeat result nil r = r
  collect-NoRepeat result (cons raw rest) r =
      collect-NoRepeat (added result (normal render u raw)) rest
        (added-NoRepeat result (normal render u raw) r)

  -- From a list of reported values, `_valid_dtc_codes` returns exactly those codes that pass its
  -- tests and are the normal form of some element, and none of them twice.
  pub valid_dtc_codes_lem :
      (items : Items N)
      → ((code : String)
          → contains code (valid_dtc_codes render u (some (arr items)))
            ≡ (is_code code && occurs code items))
        × NoRepeat (valid_dtc_codes render u (some (arr items)))
  unfolding valid_dtc_codes contains
  valid_dtc_codes_lem items = (λ code. contains-collect code [] items, collect-NoRepeat [] items tt)
