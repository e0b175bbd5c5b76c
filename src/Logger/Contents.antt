-- ===== src/Logger/Contents.antt =====
-- What the log holds, oldest record first, and how the operations of logger.py change it.
use native.Mathlib.Nat.{mod-add-mod, mod-lt}
use native.Mathlib.Decide.{dec_lt, ℕ_discrete}
use connected_vehicle_health.Prelude.{
  ℕ, zero, suc, ◌+◌, ◌-◌, ◌%◌, ◌≤◌, ◌<◌, min, ◌≡◌, ◌≢◌, refl, ap, sym, ◌∙◌, some, List, [], ◌∷◌,
  ◌++◌, append-nil, arith, length, get_elem?, set, take, drop, length-append, length-set,
  length-drop, drop-length, Bool-cases, ◌==◌, inl, inr, drop-cons, get_elem?-some, drop-append_le,
}
use connected_vehicle_health.Prelude.Int.{ℤ, at_least_zero}
use connected_vehicle_health.Logger.Rotate.{
  rotate, length-rotate, get_elem?-rotate, rotate-set, drop_one-rotate,
}
use connected_vehicle_health.Logger.{Entry, GatewayLogger, add, gather, oldest, entries, trim}

-- The last `n` elements.
abbrev pub last {ℓ} : {A : Type ℓ} → ℕ → List A → List A
last n xs = drop (length xs - n) xs

-- The records, oldest first.
unfoldable pub contents : GatewayLogger → List Entry
unfolding oldest
contents l = drop (oldest l) l.items ++ take (oldest l) l.items

pub record IsValid (l : GatewayLogger) : Type 0 where
  pub positive : 0 < l.capacity
  pub bounded : length l.items ≤ l.capacity
  pub next_in : l.next < l.capacity
  pub young : length l.items < l.capacity → l.next ≡ 0

contents_start : (l : GatewayLogger) → oldest l ≡ 0 → contents l ≡ l.items
unfolding contents
contents_start l e = ap (λ (k : ℕ). rotate k l.items) e ∙ append-nil l.items

-- A log that is not full, or whose next write is at index 0, has its oldest record first.
contents_young :
    (l : GatewayLogger)
    → (length l.items < l.capacity → l.next ≡ 0)
    → l.next ≡ 0
    → contents l ≡ l.items
contents_young l y e = contents_start l (unfold oldest in ground arith)

module _ (l : GatewayLogger) (v : IsValid l) where
  open l use {items, capacity, next}

  length-contents : length (contents l) ≡ length items
  unfolding contents
  length-contents = length-rotate (oldest l) items

  oldest-lt : length items ≢ 0 → oldest l < length items
  unfolding oldest
  oldest-lt h = ground (arith, v.next_in, v.positive)

  get_elem?-contents :
      (k : ℕ)
      → k < length items
      → get_elem? (contents l) k ≡ get_elem? items ((oldest l + k) % length items)
  unfolding contents
  get_elem?-contents k h = get_elem?-rotate (oldest l) items k (oldest-lt (omega arith)) h

  -- The loop of `entries` reads the suffix of the contents that starts `c` records after the oldest.
  gather-contents :
      (c offset left : ℕ)
      → c + offset + left ≡ length items
      → gather items ((oldest l + c) % length items) offset left
        ≡ some (drop (c + offset) (contents l))
  unfolding gather
  gather-contents c offset zero e =
      ap some (sym (drop-length (c + offset) (contents l) (omega (arith, length-contents))))
  gather-contents c offset (suc left) e =
      let (x, found) = get_elem?-some (contents l) (c + offset) (omega (arith, length-contents)) in
      let same : (((oldest l + c) % length items) + offset) % length items
          ≡ (oldest l + (c + offset)) % length items =
        mod-add-mod (oldest l + c) (length items) offset
        ∙ ap (λ (k : ℕ). k % length items) (omega arith) in
      let here : get_elem? items (((oldest l + c) % length items + offset) % length items)
          ≡ some x =
        ap (get_elem? items) same ∙ sym (get_elem?-contents (c + offset) (omega arith)) ∙ found in
      let rest : gather items ((oldest l + c) % length items) (suc offset) left
          ≡ some (drop (suc (c + offset)) (contents l)) =
        gather-contents c (suc offset) left (omega arith)
        ∙ ap (λ (k : ℕ). some (drop k (contents l))) {x = c + suc offset} {y = suc (c + offset)}
            (omega arith) in
      rw (here, rest, gather) (ap some (sym (drop-cons (c + offset) (contents l) x found)))

  gather-last :
      (count : ℕ)
      → count ≤ length items
      → gather items ((oldest l + length items - count) % length items) 0 count
        ≡ some (last count (contents l))
  gather-last count h =
      ap (λ (k : ℕ). gather items (k % length items) 0 count) {x = oldest l + length items - count}
        {y = oldest l + (length items - count)} (omega arith)
      ∙ gather-contents (length items - count) 0 count (omega arith)
      ∙ ap (λ (k : ℕ). some (drop k (contents l))) (omega (arith, length-contents))

  last_of_min : (n : ℕ) → last (min n (length items)) (contents l) ≡ last n (contents l)
  last_of_min n = ap (λ (k : ℕ). drop k (contents l)) (omega (arith, length-contents))

  -- On a valid log `entries(limit)` never indexes out of range, and returns the `limit` newest
  -- records, oldest first: none if `limit` is negative, all if there are fewer.
  pub entries-eq-last :
      (limit : ℤ) → entries limit l ≡ some (last (at_least_zero limit) (contents l))
  unfolding entries
  entries-eq-last limit =
      let count = min (at_least_zero limit) (length items) in
      elim (Bool-cases (count == 0)) [
        | inl z ↦
            rw z (ap some (sym (drop-length _ (contents l) (ground (arith, length-contents)))))
        | inr nz ↦
            rw nz (gather-last count (omega arith) ∙ ap some (last_of_min (at_least_zero limit)))
      ]

  trimmed : ℕ → GatewayLogger
  trimmed count = record l { items = last count (contents l); next = 0 }

  trimmed-IsValid : (count : ℕ) → IsValid (trimmed count)
  unfolding trimmed
  trimmed-IsValid count = record {
    positive = v.positive;
    bounded =
        omega (
          arith,
          v.bounded,
          length-contents,
          length-drop (length (contents l) - count) (contents l),
        );
    next_in = v.positive;
    young = λ _. refl;
  }

  trim_all :
      (keep : ℤ) → min (at_least_zero keep) (length items) ≡ length items → trim keep l ≡ some l
  unfolding trim
  trim_all keep e = ground arith

  trim-some :
      (keep : ℤ)
      → min (at_least_zero keep) (length items) ≢ length items
      → trim keep l ≡ some (trimmed (min (at_least_zero keep) (length items)))
  unfolding trim trimmed
  trim-some keep e =
      ground (arith, gather-last (min (at_least_zero keep) (length items)) (omega arith))

  -- On a valid log `trim(keep)` never indexes out of range. The log then holds its `keep` newest
  -- records in their order, all of them if there are no more, and is valid again.
  pub trim-eq-last :
      (keep : ℤ)
      → (l' : GatewayLogger) × (trim keep l ≡ some l')
        × (contents l' ≡ last (at_least_zero keep) (contents l))
        × IsValid l'
        × (l'.capacity ≡ capacity)
  trim-eq-last keep =
      let count = min (at_least_zero keep) (length items) in
      elim (ℕ_discrete count (length items)) [
        | yes e ↦ (
          l,
          trim_all keep e,
          ap (λ (k : ℕ). drop k (contents l)) {x = 0} (omega (arith, length-contents)),
          v,
          refl,
        )
        | no ne ↦ (
          trimmed count,
          trim-some keep ne,
          contents_young (trimmed count) (λ _. unfold trimmed in refl) (unfold trimmed in refl)
              ∙ unfold trimmed in last_of_min (at_least_zero keep),
          trimmed-IsValid count,
          unfold trimmed in refl,
        )
      ]

  appended : Entry → GatewayLogger
  appended e = record l { items = items ++ e ∷ [] }

  replaced : Entry → GatewayLogger
  replaced e = record l { items = set items next e; next = (next + 1) % capacity }

  appended-IsValid : (e : Entry) → length items < capacity → IsValid (appended e)
  unfolding appended
  appended-IsValid e h = record {
    positive = v.positive;
    bounded = omega (arith, length-append items (e ∷ []));
    next_in = v.next_in;
    young = λ _. v.young h;
  }

  replaced-IsValid : (e : Entry) → length items ≡ capacity → IsValid (replaced e)
  unfolding replaced
  replaced-IsValid e h = record {
    positive = v.positive;
    bounded = omega (arith, length-set items next e);
    next_in = mod-lt (next + 1) v.positive;
    young = λ y. absurd (omega (arith, length-set items next e));
  }

  contents-appended :
      (e : Entry)
      → length items < capacity
      → contents (appended e) ≡ last capacity (contents l ++ e ∷ [])
  unfolding appended
  contents-appended e h =
      contents_young (appended e) (λ _. v.young h) (v.young h)
      ∙ ap (λ t. t ++ e ∷ []) (sym (contents_young l v.young (v.young h)))
      ∙ ap (λ (k : ℕ). drop k (contents l ++ e ∷ [])) {x = 0}
          {y = length (contents l ++ e ∷ []) - capacity}
          (omega (arith, length-append (contents l) (e ∷ []), length-contents))

  oldest_full : length items ≡ capacity → oldest l ≡ next
  unfolding oldest
  oldest_full h = ground arith

  contents-replaced :
      (e : Entry)
      → length items ≡ capacity
      → contents (replaced e) ≡ last capacity (contents l ++ e ∷ [])
  unfolding contents oldest replaced
  contents-replaced e h =
      ap (λ (k : ℕ). rotate k (set items next e)) {y = (next + 1) % length items}
        (ground (arith, length-set items next e))
      ∙ rotate-set next items e (omega (arith, v.next_in))
      ∙ ap (λ t. t ++ e ∷ []) (sym (drop_one-rotate next items (omega (arith, v.next_in))))
      ∙ sym (
          drop-append_le 1 (rotate next items) (e ∷ [])
            (omega (arith, v.positive, length-rotate next items)))
      ∙ ap (λ (k : ℕ). drop k (rotate next items ++ e ∷ [])) {x = 1}
          {y = length (rotate next items ++ e ∷ []) - capacity}
          (omega (arith, length-append (rotate next items) (e ∷ []), length-rotate next items))
      ∙ ap (λ (k : ℕ). last capacity (rotate k items ++ e ∷ [])) (sym (oldest_full h))

  -- On a valid log a further record is never an IndexError. The log then holds the last `capacity`
  -- of the records before and the new one, in order, and is valid again.
  pub add-eq-last :
      (e : Entry)
      → (l' : GatewayLogger) × (add e l ≡ some l')
        × (contents l' ≡ last capacity (contents l ++ e ∷ []))
        × IsValid l'
        × (l'.capacity ≡ capacity)
  add-eq-last e = elim (dec_lt (length items) capacity) [
    | yes p ↦ (
      appended e,
      (unfold add appended in ground arith),
      contents-appended e p,
      appended-IsValid e p,
      unfold appended in refl,
    )
    | no p ↦
        let full : length items ≡ capacity = omega (arith, v.bounded) in
        (
          replaced e,
          (unfold add replaced in ground (arith, v.next_in)),
          contents-replaced e full,
          replaced-IsValid e full,
          unfold replaced in refl,
        )
  ]
