-- ===== src/Clock/Synced.antt =====
-- What `sync_time` of time_manager.py returns and leaves.
use connected_vehicle_health.Prelude.{
  ℕ, zero, suc, ◌≡◌, ◌⊎◌, inl, inr, refl, String, Bool, false, none, some, arith,
}
use connected_vehicle_health.Method.{Session, Ended}
use connected_vehicle_health.Method.Rules.{
  bind-Ended, call-Ended, run-last, run-Ended, modify-Ended, look-Ended, pure-last, when-Ended,
  branch-Ended, handle-Ended,
}
use connected_vehicle_health.Clock.{TimeState, Board, set_clock, attempts, sync_time}

-- The result is what the last attempt that did not raise found, or false with an error.
abbrev pub IsSynced : Bool → TimeState → Type 0
IsSynced result m =
    ((m.synchronized ≡ result) × (m.last_error ≡ none))
    ⊎ ((result ≡ false) × ((exc : String) × (m.last_error ≡ some exc)))

abbrev HasError : TimeState → Type 0
HasError m = (exc : String) × (m.last_error ≡ some exc)

module _ (board : Board) where
  open board use {S}

  attempts-IsSynced :
      (left : ℕ) (σ : Session TimeState S)
      → (left ≡ 0 → HasError σ.self)
      → Ended IsSynced (λ _. ⊥) (attempts board left σ)
  unfolding attempts set_clock
  attempts-IsSynced zero σ failed = pure-last _ _ _ _ (inr (refl, failed refl))
  attempts-IsSynced (suc left) σ failed =
      handle-Ended (λ _. Unit) _ _ _ _ _
        (call-Ended _ _ _ _ _ tt (λ _ s.
          look-Ended _ _ _ _ _ (modify-Ended _ _ _ _ _ (pure-last _ _ _ _ (inl (refl, refl))))))
        (λ exc σ' _. modify-Ended _ _ _ _ _ (
          bind-Ended (λ _. HasError) _ _ _ _ _
            (when-Ended _ _ _ _ _ (λ again. run-last _ _ _ _ (exc, refl)) (λ last. (exc, refl)))
            (λ _ σ'' e. attempts-IsSynced left σ'' (λ _. e))))

  -- `sync_time` does not raise, whatever the library raises. It returns whether the time is valid
  -- after an attempt that did not raise, which it notes, without an error; or false, with an error.
  pub sync_time-IsSynced :
      (present : Bool) (σ : Session TimeState S)
      → Ended IsSynced (λ _. ⊥) (sync_time board present σ)
  unfolding sync_time
  sync_time-IsSynced present σ =
      branch-Ended _ _ _ _ _ _
        (λ _. run-Ended _ _ _ _ _ (attempts-IsSynced 3 _ (λ never. absurd (ground (arith, never)))))
        (λ _.
          modify-Ended _ _ _ _ _
            (pure-last _ _ _ _ (inr (refl, ("ntptime module unavailable", refl)))))
