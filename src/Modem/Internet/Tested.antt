-- ===== src/Modem/Internet/Tested.antt =====
-- What a test of the internet leaves in the manager's fields, whatever the modem answers.
use connected_vehicle_health.Prelude.{
  ℕ, ◌+◌, ◌≡◌, ◌⊎◌, inl, inr, refl, String, Bool, true, false, Option, none, some, List, [], ◌∷◌,
}
use connected_vehicle_health.Prelude.Int.{ℤ}
use connected_vehicle_health.Method.{Session, Ended}
use connected_vehicle_health.Method.Rules.{
  call-Ended, modify-Ended, gets-Ended, look-Ended, modify-last, log-last, branch-Ended,
  handle-Ended,
}
use connected_vehicle_health.Modem.{ModemManager}
use connected_vehicle_health.Modem.Line.{Line}
use connected_vehicle_health.Modem.Attach.{is_ready, logged_of}
use connected_vehicle_health.Modem.Attach.Checked.{IsSound, IsChecked}
use connected_vehicle_health.Modem.Internet.{mean, any_latency, fail_test, ping, test_internet}

-- After a test that started with the fields `m`: it succeeded with a latency, or one more has failed.
pub record IsTested (m m' : ModemManager) : Type 0 where
  pub counted :
      ((m'.internet_ok ≡ true) × (m'.internet_test_failures ≡ m.internet_test_failures))
      ⊎ ((m'.internet_ok ≡ false) × (m'.internet_test_failures ≡ m.internet_test_failures + 1))
  pub measured : m'.internet_ok ≡ elim m'.ping_latency_ms [ none ↦ false | some ms ↦ true ]
  pub keeps_sound : IsSound m → IsSound m'
  pub keeps_checked : IsChecked m → IsChecked m'
  pub keeps_responding : m'.responding ≡ m.responding

mean-measured : (zs : List ℤ) → any_latency zs ≡ elim (mean zs) [ none ↦ false | some ms ↦ true ]
unfolding any_latency mean
mean-measured [] = refl
mean-measured (z ∷ zs) = refl

-- The fields of a manager after a test with the given results.
abbrev tested : Option ℕ → String → Bool → Option ℤ → ℕ → ModemManager → ModemManager
tested ticks now success latency failures m = record m {
  last_test_ticks = ticks;
  last_internet_test = now;
  internet_ok = success;
  ping_latency_ms = latency;
  internet_test_failures = failures;
}

tested-IsTested :
    (ticks : Option ℕ) (now : String) (success : Bool) (latency : Option ℤ) (failures : ℕ)
    (m : ModemManager)
    → ((success ≡ true) × (failures ≡ m.internet_test_failures))
      ⊎ ((success ≡ false) × (failures ≡ m.internet_test_failures + 1))
    → success ≡ elim latency [ none ↦ false | some ms ↦ true ]
    → IsTested m (tested ticks now success latency failures m)
unfolding is_ready logged_of
tested-IsTested ticks now success latency failures m count fits = record {
  counted = count;
  measured = fits;
  keeps_sound = λ h. (h.0, fits);
  keeps_checked = λ h. record {
    sound = (h.sound.0, fits);
    responding = h.responding;
    clean = h.clean;
    justified = h.justified;
    logged = h.logged;
  };
  keeps_responding = refl;
}

module _ (line : Line) where
  open line use {S}

  fail_test-IsTested :
      (ticks : Option ℕ) (now : String) (m : ModemManager)
      → IsTested m (fail_test (record m { last_test_ticks = ticks; last_internet_test = now }))
  unfolding fail_test
  fail_test-IsTested ticks now m =
      tested-IsTested ticks now false none (m.internet_test_failures + 1) m (inr (refl, refl)) refl

  -- Whatever the modem answers or raises: a test of the internet returns. It succeeded, with a
  -- latency, and the count of the failures is the same; or it did not, without a latency, and the
  -- count is one more. What a check of the modem established still holds.
  pub test_internet-IsTested :
      (σ : Session ModemManager S) → Ended (λ _. IsTested σ.self) (λ _. ⊥) (test_internet line σ)
  unfolding test_internet ping fail_test
  test_internet-IsTested σ =
      let m = σ.self in
      look-Ended _ _ _ _ _ (
        modify-Ended _ _ _ _ _ (
          look-Ended _ _ _ _ _ (
            modify-Ended _ _ _ _ _ (
              gets-Ended _ _ _ _ _ (
                branch-Ended _ _ _ _ _ _ (λ off. modify-last _ _ _ _ (fail_test-IsTested _ _ m))
                  (λ on.
                    handle-Ended (λ m'. IsTested σ.self (fail_test m')) _ _ _ _ _
                      (call-Ended _ _ _ _ _ (fail_test-IsTested _ _ m) (λ text s.
                        modify-Ended _ _ _ _ _ (
                          gets-Ended _ _ _ _ _ (
                            branch-Ended _ _ _ _ _ _
                              (λ success. log-last _ _ _ _ (
                                tested-IsTested _ _ _ _ _ m (inl (success, refl))
                                  (mean-measured _)))
                              (λ failure. modify-Ended _ _ _ _ _ (
                                log-last _ _ _ _ (
                                  tested-IsTested _ _ _ _ _ m (inr (failure, refl))
                                    (mean-measured _))))))))
                      (λ exc σ' h. modify-Ended _ _ _ _ _ (log-last _ _ _ _ h))))))))
