-- ===== src/Modem/Attach/Checked.antt =====
-- What holds of the manager's fields after a check of the modem, whatever the modem answers.
use connected_vehicle_health.Prelude.{
  ◌≡◌, refl, String, Bool, true, false, Option, none, some, arith,
}
use connected_vehicle_health.Method.{Session, Ended, ◌>>◌}
use connected_vehicle_health.Method.Rules.{
  bind-Ended, call-Ended, modify-Ended, modify-keeps, not-false, unset, gets-Ended, look-Ended,
  log-Ended, modify-last, pure-last, when-Ended, branch-Ended,
}
use connected_vehicle_health.Modem.{ModemManager}
use connected_vehicle_health.Modem.Line.{Line}
use connected_vehicle_health.Modem.Answers.{
  set_signal, set_registration, first_field, dbm_of, after_colon,
}
use connected_vehicle_health.Modem.Attach.Same.{same_state-eq}
use connected_vehicle_health.Modem.Attach.{
  has_address, is_ready, logged_of, identify, define_context, attach, read_address,
  activate_context, activate, clear_session, log_state, configure_and_check,
}

-- An address is known only of an active data session, and a latency of a successful test.
abbrev pub IsSound : ModemManager → Type 0
IsSound m =
    (has_address m.mobile_ip ≡ true → m.data_active ≡ true)
    × (m.internet_ok ≡ elim m.ping_latency_ms [ none ↦ false | some ms ↦ true ])

-- The data session is active only with a SIM, on a network, attached and with its access point.
abbrev pub IsJustified : ModemManager → Type 0
IsJustified m =
    m.data_active ≡ true
    → (is_ready m ≡ true) × (m.data_attached ≡ true) × (m.pdp_configured ≡ true)

pub record IsChecked (m : ModemManager) : Type 0 where
  pub sound : IsSound m
  pub responding : m.responding ≡ true
  pub clean : m.last_error ≡ none
  pub justified : IsJustified m
  pub logged : m.last_logged_state ≡ some (logged_of m)

no_address : (ip : Option String) (b : Bool) → ip ≡ none → has_address ip ≡ true → b ≡ true
unfolding has_address
no_address none b at h = absurd (ground (arith, h))
no_address (some ip) b at h = absurd (ground (arith, at))

module _ (line : Line) where
  open line use {S}

  abbrev Responding : ModemManager → Type 0
  Responding m = IsSound m × (m.responding ≡ true)

  set_signal-keeps :
      (value : String) (m : ModemManager)
      → Responding m
      → Responding (set_signal line.int_of value m)
  unfolding set_signal
  set_signal-keeps value m h =
      elim (line.int_of (first_field value))
        as (λ o. Responding (elim o [
          | none ↦ record m { signal_csq = none; signal_dbm = none }
          | some csq ↦ record m { signal_csq = some csq; signal_dbm = dbm_of csq }
        ])) [ none ↦ h | some csq ↦ h ]

  identify-Ended :
      (σ : Session ModemManager S)
      → IsSound σ.self
      → Ended (λ _. Responding) IsSound (identify line σ)
  unfolding identify set_registration
  identify-Ended σ h = modify-Ended _ _ _ _ _ (
      call-Ended _ _ _ _ _ h (λ identity s1. modify-Ended _ _ _ _ _ (
        call-Ended _ _ _ _ _ h (λ pin s2. modify-Ended _ _ _ _ _ (
          call-Ended _ _ _ _ _ h (λ quality s3.
            modify-keeps Responding _ _ _ _ _ (set_signal-keeps (after_colon quality "+CSQ:"))
              (h, refl)
              (λ σ' kept. call-Ended _ _ _ _ _ kept.0 (λ registered s4.
                modify-Ended _ _ _ _ _
                  (call-Ended _ _ _ _ _ kept.0 (λ network s5. modify-last _ _ _ _ kept))))))))))

  -- Past `identify`, on a network: what the other calls keep.
  abbrev Ready : ModemManager → Type 0
  Ready m = Responding m × (is_ready m ≡ true)

  define_context-Ended :
      (σ : Session ModemManager S)
      → Ready σ.self
      → Ended (λ _ m. Ready m × (m.pdp_configured ≡ true)) IsSound (define_context line σ)
  unfolding define_context is_ready
  define_context-Ended σ h = gets-Ended _ _ _ _ _ (
      when-Ended _ _ _ _ _
        (λ fresh. call-Ended _ _ _ _ _ h.0.0 (λ answer s. modify-last _ _ _ _ (h, refl)))
        (λ old. (h, not-false _ old)))

  attach-Ended :
      (σ : Session ModemManager S)
      → Ready σ.self
      → σ.self.pdp_configured ≡ true
      → Ended
          (λ _ m. Ready m × (m.pdp_configured ≡ true) × (m.data_attached ≡ true))
          IsSound
          (attach line σ)
  unfolding attach is_ready
  attach-Ended σ h p = call-Ended _ _ _ _ _ h.0.0 (λ answer s. modify-Ended _ _ _ _ _ (
      gets-Ended _ _ _ _ _ (
        when-Ended _ _ _ _ _
          (λ off. call-Ended _ _ _ _ _ h.0.0 (λ done s'. modify-last _ _ _ _ (h, p, refl)))
          (λ on. (h, p, not-false _ on)))))

  -- The call that activates the context: an address stays unknown where it raises.
  abbrev Before : ModemManager → Type 0
  Before m =
      (m.responding ≡ true)
      × (is_ready m ≡ true)
      × (m.pdp_configured ≡ true)
      × (m.data_attached ≡ true)
      × (m.internet_ok ≡ elim m.ping_latency_ms [ none ↦ false | some ms ↦ true ])

  activate_context-Ended :
      (ip : Option String) (σ : Session ModemManager S)
      → σ.self.mobile_ip ≡ ip
      → Before σ.self
      → Ended (λ _. Before) IsSound (activate_context line ip σ)
  unfolding activate_context read_address is_ready has_address
  activate_context-Ended (some ip) σ at h = pure-last _ _ _ _ h
  activate_context-Ended none σ at h =
      call-Ended _ _ _ _ _ (no_address _ _ at, h.4)
        (λ activation s.
          bind-Ended (λ _. Before) _ _ _ _ _
            (call-Ended _ _ _ _ _ (no_address _ _ at, h.4) (λ answer s'. modify-last _ _ _ _ h))
            (λ _ σ' kept. pure-last _ _ _ _ kept))

  -- Before the last part: the data session is as it should be.
  abbrev Settled : ModemManager → Type 0
  Settled m = Responding m × IsJustified m

  activate-Ended :
      (σ : Session ModemManager S)
      → Ready σ.self
      → σ.self.pdp_configured ≡ true
      → σ.self.data_attached ≡ true
      → Ended (λ _. Settled) IsSound (activate line σ)
  unfolding activate read_address is_ready has_address
  activate-Ended σ h p a =
      bind-Ended (λ _. Before) _ _ _ _ _
        (call-Ended _ _ _ _ _ h.0.0 (λ answer s. modify-last _ _ _ _ (h.0.1, h.1, p, a, h.0.0.1)))
        (λ _ σ' kept. gets-Ended _ _ _ _ _ (
          bind-Ended (λ _. Before) _ _ _ _ _ (activate_context-Ended _ σ' refl kept)
            (λ activation_ok σ'' kept'.
              modify-last _ _ _ _
                ((((λ t. ground arith), kept'.4), kept'.0), (λ t. (kept'.1, kept'.3, kept'.2))))))

  log_state-Ended :
      (σ : Session ModemManager S)
      → Settled σ.self
      → σ.self.last_error ≡ none
      → Ended (λ _. IsChecked) IsSound (log_state line σ)
  unfolding log_state logged_of is_ready
  log_state-Ended σ h e = gets-Ended _ _ _ _ _ (
      when-Ended _ _ _ _ _
        (λ fresh. log-Ended _ _ _ _ _ (
          modify-last _ _ _ _ (record {
            sound = h.0.0;
            responding = h.0.1;
            clean = e;
            justified = h.1;
            logged = refl;
          })))
        (λ same. record {
          sound = h.0.0;
          responding = h.0.1;
          clean = e;
          justified = h.1;
          logged = same_state-eq _ _ (not-false _ same);
        }))

  connect-Ended :
      (σ : Session ModemManager S)
      → Ready σ.self
      → Ended (λ _. Settled) IsSound ((define_context line >> (attach line >> activate line)) σ)
  connect-Ended σ h =
      bind-Ended (λ _ m. Ready m × (m.pdp_configured ≡ true)) _ _ _ _ _ (define_context-Ended σ h)
        (λ _ σ' k.
          bind-Ended (λ _ m. Ready m × (m.pdp_configured ≡ true) × (m.data_attached ≡ true)) _ _ _ _
            _ (attach-Ended σ' k.0 k.1) (λ _ σ'' l. activate-Ended σ'' l.0 l.1 l.2))

  -- Whatever the modem answers to the commands: a check that raises keeps the fields sound, and one
  -- that returns leaves the manager responding, without an error, with its state logged; then the
  -- data session is active only if the SIM is ready, the network registered, and the modem attached
  -- with its access point.
  pub configure_and_check-IsChecked :
      (σ : Session ModemManager S)
      → IsSound σ.self
      → Ended (λ _. IsChecked) IsSound (configure_and_check line σ)
  unfolding configure_and_check clear_session has_address
  configure_and_check-IsChecked σ h =
      bind-Ended (λ _. Responding) _ _ _ _ _ (identify-Ended σ h)
        (λ _ σ' r. gets-Ended _ _ _ _ _ (
          bind-Ended (λ _. Settled) _ _ _ _ _
            (branch-Ended _ _ _ _ _ _ (λ on. connect-Ended σ' (r, on))
              (λ off. modify-last _ _ _ _ ((((λ t. unset t), r.0.1), r.1), λ t. unset t)))
            (λ _ σ'' k. look-Ended _ _ _ _ _ (modify-Ended _ _ _ _ _ (log_state-Ended _ k refl)))))
