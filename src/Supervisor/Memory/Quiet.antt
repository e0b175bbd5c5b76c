-- ===== src/Supervisor/Memory/Quiet.antt =====
-- How the memory loop of gateway.py treats the log while the memory stays low.
use connected_vehicle_health.Prelude.{
  ℕ, zero, suc, ◌+◌, ◌-◌, ◌<◌, ◌≡◌, refl, sym, ap, ◌∙◌, String, true, Option, none, some, List, [],
  ◌∷◌, ltb, drop, length, All, arith, Bool-cases, inl, inr,
}
use connected_vehicle_health.Prelude.Int.{pos}
use connected_vehicle_health.Logger.{GatewayLogger}
use connected_vehicle_health.Logger.Contents.{contents, IsValid, trim-eq-last}
use connected_vehicle_health.Supervisor.Memory.{Reading, warn_once, check_memory, is_low, check_all}

drop-nil : {A : Type 0} (n : ℕ) → ◌≡◌ {A = List A} (drop n []) []
drop-nil zero = refl
drop-nil (suc n) = refl

drop-drop : {A : Type 0} (a b : ℕ) (xs : List A) → drop a (drop b xs) ≡ drop (b + a) xs
drop-drop a zero xs = ap (λ n. drop n xs) {x = a} {y = 0 + a} (omega arith)
drop-drop a (suc b) [] = drop-nil a ∙ sym (drop-nil (suc b + a))
drop-drop a (suc b) (x ∷ xs) =
    drop-drop a b xs ∙ ap (λ n. drop n (x ∷ xs)) {x = suc (b + a)} {y = suc b + a} (omega arith)

-- The log is valid and holds what is left of some records without the oldest of them.
abbrev pub IsRest : GatewayLogger → Option GatewayLogger → Type 0
IsRest l r =
    (l' : GatewayLogger) × (r ≡ some l')
    × IsValid l'
    × ((k : ℕ) × (contents l' ≡ drop k (contents l)))

module _ (show : ℕ → String) where
  check_memory-IsRest :
      (r : Reading) (l : GatewayLogger)
      → is_low show r ≡ true
      → IsValid l
      → IsRest l (check_memory show r true l)
  unfolding check_memory warn_once is_low
  check_memory-IsRest r l low v = elim (Bool-cases (ltb r.free_memory 45000)) [
    | inl critical ↦
        let (l', done, same, v', cap) = trim-eq-last l v (pos 25) in
        rw (critical, done) (l', refl, v', (length (contents l) - 25, same))
    | inr above ↦ rw (above, low) (l, refl, v, (0, refl))
  ]

  low-is_low : (r : Reading) → r.free_memory < 55000 → is_low show r ≡ true
  unfolding is_low
  low-is_low r h = ground (arith, h)

  check_next :
      (r : Reading) (rs : List Reading) (l l' : GatewayLogger)
      → check_memory show r true l ≡ some l'
      → check_all show (r ∷ rs) true l ≡ check_all show rs (is_low show r) l'
  unfolding check_all
  check_next r rs l l' done =
      ap
        (λ o. elim o as (λ _. Option GatewayLogger) [
          | none ↦ none
          | some x ↦ check_all show rs (is_low show r) x
        ])
        done

  check_none : (l : GatewayLogger) → check_all show [] true l ≡ some l
  unfolding check_all
  check_none l = refl

  -- While the memory stays low after a warning: no check is an IndexError, and none adds a record;
  -- the log only loses its oldest ones.
  pub check_all-IsRest :
      (rs : List Reading) (l : GatewayLogger)
      → All (λ r. r.free_memory < 55000) rs
      → IsValid l
      → IsRest l (check_all show rs true l)
  check_all-IsRest [] l low v = (l, check_none l, v, (0, refl))
  check_all-IsRest (r ∷ rs) l (first, low) v =
      let still = low-is_low r first in
      let (l', done, v', (k, same)) = check_memory-IsRest r l still v in
      let (l'', done', v'', (k', same')) = check_all-IsRest rs l' low v' in
      (
        l'',
        check_next r rs l l' done ∙ rw still done',
        v'',
        (k + k', same' ∙ ap (drop k') same ∙ drop-drop k' k (contents l)),
      )
