-- ===== src/Modem/Monitor/Steady.antt =====
-- What holds of a ModemManager while its service runs, whatever the modem answers and raises.
use connected_vehicle_health.Prelude.{◌≡◌, refl, subst, sym, ◌∙◌, Bool, true, false, List, [], ◌∷◌}
use connected_vehicle_health.Method.{Session, Ended}
use connected_vehicle_health.Method.Rules.{
  unset, call-last, bind-Ended, call-Ended, modify-Ended, gets-Ended, look-Ended, log-Ended,
  modify-last, log-last, pure-last, raise-last, branch-Ended, when-Ended, handle-Ended,
  finally-Ended, Ended-weaken,
}
use connected_vehicle_health.Modem.{ModemManager, init}
use connected_vehicle_health.Modem.Line.{Line}
use connected_vehicle_health.Modem.Attach.{configure_and_check, has_address, is_ready, logged_of}
use connected_vehicle_health.Modem.Attach.Checked.{
  IsSound, IsChecked, configure_and_check-IsChecked,
}
use connected_vehicle_health.Modem.Internet.{test_internet, start_internet_test, internet_test_task}
use connected_vehicle_health.Modem.Internet.Tested.{IsTested, test_internet-IsTested}
use connected_vehicle_health.Modem.Monitor.{
  first_check, record_error, begin, reconnect, check_and_test, try_pass, monitor_pass,
  requested_test, Event, passed, requested, run, serve,
}

-- The fields are sound, and those of a manager that responds are what its last check left.
abbrev pub IsSteady : ModemManager → Type 0
IsSteady m = IsSound m × (m.responding ≡ true → IsChecked m)

running-IsSteady :
    (b : Bool) (m : ModemManager) → IsSteady m → IsSteady (record m { internet_test_running = b })
unfolding is_ready logged_of
running-IsSteady b m h = (
  h.0,
  λ on.
      let c = h.1 on in
      record {
        sound = c.sound;
        responding = c.responding;
        clean = c.clean;
        justified = c.justified;
        logged = c.logged;
      },
)

tested-IsSteady : (m m' : ModemManager) → IsTested m m' → IsSteady m → IsSteady m'
tested-IsSteady m m' t h =
    (t.keeps_sound h.0, λ on. t.keeps_checked (h.1 (sym t.keeps_responding ∙ on)))

pub init-IsSound : IsSound init
unfolding init has_address
init-IsSound = ((λ t. unset t), refl)

module _ (line : Line) where
  open line use {S}

  checked-IsSound :
      (σ : Session ModemManager S)
      → IsSound σ.self
      → Ended (λ _. IsSound) IsSound (configure_and_check line σ)
  checked-IsSound σ h =
      Ended-weaken (λ _. IsChecked) IsSound _ _ (configure_and_check line) σ
        (configure_and_check-IsChecked line σ h) (λ _ m c. c.sound) (λ m s. s)

  first_check-Ended :
      (σ : Session ModemManager S)
      → IsSound σ.self
      → Ended (λ _. IsSound) IsSound (first_check line σ)
  unfolding first_check
  first_check-Ended σ h = call-Ended _ _ _ _ _ h (λ _ s1. call-Ended _ _ _ _ _ h (λ found s2.
      bind-Ended (λ _. IsSound) _ _ _ _ _
        (when-Ended _ _ _ _ _ (λ silent. log-Ended _ _ _ _ _ (call-last _ _ _ _ h (λ _. h)))
          (λ _. h))
        (λ _ σ' h'. call-Ended _ _ _ _ _ h' (λ again s3.
          branch-Ended _ _ _ _ _ _
            (λ _. modify-Ended _ _ _ _ _ (log-Ended _ _ _ _ _ (checked-IsSound _ h')))
            (λ _. raise-last _ _ _ _ h')))))

  begin-Ended :
      (σ : Session ModemManager S) → IsSound σ.self → Ended (λ _. IsSound) (λ _. ⊥) (begin line σ)
  unfolding begin record_error
  begin-Ended σ h = modify-Ended _ _ _ _ _ (
      handle-Ended IsSound _ _ _ _ _ (first_check-Ended _ h)
        (λ exc σ' h'. modify-Ended _ _ _ _ _ (log-last _ _ _ _ h')))

  reconnect-Ended :
      (σ : Session ModemManager S)
      → IsSound σ.self
      → Ended (λ _. IsSound) IsSound (reconnect line σ)
  unfolding reconnect
  reconnect-Ended σ h = modify-Ended _ _ _ _ _ (
      call-Ended _ _ _ _ _ h (λ found s.
        modify-Ended _ _ _ _ _ (when-Ended _ _ _ _ _ (λ _. modify-last _ _ _ _ h) (λ _. h))))

  check_and_test-Ended :
      (σ : Session ModemManager S)
      → IsSound σ.self
      → Ended (λ _. IsChecked) IsSound (check_and_test line σ)
  unfolding check_and_test
  check_and_test-Ended σ h =
      bind-Ended (λ _. IsChecked) _ _ _ _ _ (configure_and_check-IsChecked line σ h)
        (λ _ σ' c. look-Ended _ _ _ _ _ (
          gets-Ended _ _ _ _ _ (
            when-Ended _ _ _ _ _
              (λ due.
                Ended-weaken (λ _. IsTested σ'.self) (λ _. ⊥) _ _ (test_internet line) σ'
                  (test_internet-IsTested line σ') (λ _ m t. t.keeps_checked c)
                  (λ m never. absurd never))
              (λ _. c))))

  try_pass-Ended :
      (σ : Session ModemManager S)
      → IsSound σ.self
      → Ended (λ _. IsSteady) IsSound (try_pass line σ)
  unfolding try_pass
  try_pass-Ended σ h = gets-Ended _ _ _ _ _ (
      bind-Ended (λ _. IsSound) _ _ _ _ _ (when-Ended _ _ _ _ _ (λ _. reconnect-Ended σ h) (λ _. h))
        (λ _ σ' h'. gets-Ended _ _ _ _ _ (
          when-Ended _ _ _ _ _
            (λ _.
              Ended-weaken (λ _. IsChecked) IsSound _ _ (check_and_test line) σ'
                (check_and_test-Ended σ' h') (λ _ m c. (c.sound, λ _. c)) (λ m s. s))
            (λ off. (h', λ on. unset (sym off ∙ on))))))

  monitor_pass-Ended :
      (σ : Session ModemManager S)
      → IsSound σ.self
      → Ended (λ _. IsSteady) (λ _. ⊥) (monitor_pass line σ)
  unfolding monitor_pass record_error
  monitor_pass-Ended σ h = handle-Ended IsSound _ _ _ _ _ (try_pass-Ended σ h) (λ exc σ' h'.
      modify-Ended _ _ _ _ _ (modify-Ended _ _ _ _ _ (log-last _ _ _ _ (h', λ t. unset t))))

  requested_test-Ended :
      (σ : Session ModemManager S)
      → IsSteady σ.self
      → Ended (λ _. IsSteady) (λ _. ⊥) (requested_test line σ)
  unfolding requested_test start_internet_test internet_test_task
  requested_test-Ended σ h =
      bind-Ended (λ _. IsSteady) _ _ _ _ _
        (gets-Ended _ _ _ _ _ (
          branch-Ended _ _ _ _ _ _ (λ _. pure-last _ _ _ _ h)
            (λ _. modify-Ended _ _ _ _ _ (pure-last _ _ _ _ (running-IsSteady true _ h)))))
        (λ started σ' h'.
          when-Ended _ _ _ _ _
            (λ _.
              finally-Ended (λ _. IsTested σ'.self) (λ _. ⊥) _ _ _ _ _
                (test_internet-IsTested line σ')
                (λ _ m t. running-IsSteady false m (tested-IsSteady σ'.self m t h'))
                (λ m never. never))
            (λ _. h'))

  run-Ended :
      (events : List Event) (σ : Session ModemManager S)
      → IsSteady σ.self
      → Ended (λ _. IsSteady) (λ _. ⊥) (run line events σ)
  unfolding run
  run-Ended [] σ h = pure-last _ _ _ _ h
  run-Ended (passed ∷ events) σ h =
      bind-Ended (λ _. IsSteady) _ _ _ _ _ (monitor_pass-Ended σ h.0)
        (λ _ σ' h'. run-Ended events σ' h')
  run-Ended (requested ∷ events) σ h =
      bind-Ended (λ _. IsSteady) _ _ _ _ _ (requested_test-Ended σ h)
        (λ _ σ' h'. run-Ended events σ' h')

  -- A service that starts with the initial fields never stops for an exception, whatever the modem
  -- answers: after its first check, a pass of its loop and any number of passes and of requested
  -- tests, an address is known only of an active data session, and a latency only of a successful
  -- test. If the manager still counts as responding, it has no error, its state is logged, and its
  -- data session is active only if the SIM is ready, the network registered, and the modem attached
  -- with its access point.
  pub serve-IsSteady :
      (events : List Event) (σ : Session ModemManager S)
      → σ.self ≡ init
      → Ended (λ _. IsSteady) (λ _. ⊥) (serve line events σ)
  unfolding serve
  serve-IsSteady events σ at =
      bind-Ended (λ _. IsSound) _ _ _ _ _ (begin-Ended σ (subst IsSound (sym at) init-IsSound))
        (λ _ σ' h.
          bind-Ended (λ _. IsSteady) _ _ _ _ _ (monitor_pass-Ended σ' h)
            (λ _ σ'' h'. run-Ended events σ'' h'))
