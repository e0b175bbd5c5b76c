-- ===== src/Logger/Rotate.antt =====
-- A list read from an index on and going round: the order in which logger.py reads a full ring.
use native.Mathlib.Nat.{mod-eq_of_lt, mod-eq-sub-mod}
use native.Mathlib.Decide.{dec_lt}
use connected_vehicle_health.Prelude.{
  ℕ, zero, suc, ◌+◌, ◌-◌, ◌%◌, ◌<◌, ◌≡◌, refl, ap, ap₂, sym, ◌∙◌, List, [], ◌∷◌, ◌++◌, append-nil,
  append_assoc, arith, length, get_elem?, set, take, drop, length-append, length-set, length-drop,
  length-take, drop-length, take-length, drop-cons, get_elem?-some, get_elem?-append_left,
  get_elem?-append_right, get_elem?-drop, get_elem?-take,
}

module _ {ℓ} {A : Type ℓ} where
  -- The list that starts at index `s` and goes round.
  abbrev pub rotate : ℕ → List A → List A
  rotate s xs = drop s xs ++ take s xs

  pub length-rotate : (s : ℕ) (xs : List A) → length (rotate s xs) ≡ length xs
  length-rotate s xs =
      omega (arith, length-append (drop s xs) (take s xs), length-drop s xs, length-take s xs)

  pub get_elem?-rotate :
      (s : ℕ) (xs : List A) (k : ℕ)
      → s < length xs
      → k < length xs
      → get_elem? (rotate s xs) k ≡ get_elem? xs ((s + k) % length xs)
  get_elem?-rotate s xs k hs hk = elim (dec_lt (s + k) (length xs)) [
    | yes p ↦
        get_elem?-append_left (drop s xs) (take s xs) k (omega (arith, length-drop s xs))
        ∙ get_elem?-drop s xs k
        ∙ ap (get_elem? xs) (sym (mod-eq_of_lt p))
    | no p ↦
        ap (get_elem? (rotate s xs)) {x = k} {y = length (drop s xs) + (s + k - length xs)}
          (omega (arith, length-drop s xs))
        ∙ get_elem?-append_right (drop s xs) (take s xs) (s + k - length xs)
        ∙ get_elem?-take s xs (s + k - length xs) (omega arith)
        ∙ ap (get_elem? xs) (
            omega (
              arith,
              mod-eq-sub-mod {n = s + k} {m = length xs} (omega arith),
              mod-eq_of_lt {n = s + k - length xs} {m = length xs} (omega arith),
            ))
  ]

  drop-set : (n : ℕ) (xs : List A) (v : A) → drop (suc n) (set xs n v) ≡ drop (suc n) xs
  drop-set n [] v = refl
  drop-set zero (x ∷ xs) v = refl
  drop-set (suc n) (x ∷ xs) v = drop-set n xs v

  take-set :
      (n : ℕ) (xs : List A) (v : A)
      → n < length xs
      → take (suc n) (set xs n v) ≡ take n xs ++ v ∷ []
  take-set n [] v h = absurd (omega arith)
  take-set zero (x ∷ xs) v h = refl
  take-set (suc n) (x ∷ xs) v h = ap (◌∷◌ x) (take-set n xs v (omega arith))

  -- Writing at the oldest index and moving on drops the oldest element and appends the new one.
  pub rotate-set :
      (n : ℕ) (xs : List A) (v : A)
      → n < length xs
      → rotate ((n + 1) % length xs) (set xs n v) ≡ drop (suc n) xs ++ take n xs ++ v ∷ []
  rotate-set n xs v h = elim (dec_lt (suc n) (length xs)) [
    | yes p ↦
        ap (λ (k : ℕ). rotate k (set xs n v)) {x = (n + 1) % length xs} {y = suc n}
          (omega (arith, mod-eq_of_lt {n = n + 1} {m = length xs} (omega arith)))
        ∙ ap₂ ◌++◌ (drop-set n xs v) (take-set n xs v h)
        ∙ sym (append_assoc (drop (suc n) xs) (take n xs) (v ∷ []))
    | no p ↦
        ap (λ (k : ℕ). rotate k (set xs n v)) {x = (n + 1) % length xs} {y = 0}
          (omega (
            arith,
            mod-eq-sub-mod {n = n + 1} {m = length xs} (omega arith),
            mod-eq_of_lt {n = n + 1 - length xs} {m = length xs} (omega arith),
          ))
        ∙ append-nil (set xs n v)
        ∙ sym (take-length (suc n) (set xs n v) (omega (arith, length-set xs n v)))
        ∙ take-set n xs v h
        ∙ ap (λ t. t ++ take n xs ++ v ∷ []) (sym (drop-length (suc n) xs (omega arith)))
  ]

  pub drop_one-rotate :
      (n : ℕ) (xs : List A) → n < length xs → drop 1 (rotate n xs) ≡ drop (suc n) xs ++ take n xs
  drop_one-rotate n xs h =
      let (x, e) = get_elem?-some xs n h in ap (λ t. drop 1 (t ++ take n xs)) (drop-cons n xs x e)
