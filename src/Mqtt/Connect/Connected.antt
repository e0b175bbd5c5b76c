-- ===== src/Mqtt/Connect/Connected.antt =====
-- What `_connect`, `_publish` and `_cleanup` of mqtt_manager.py do to the manager's fields.
use connected_vehicle_health.Prelude.{ℕ, ◌≡◌, refl, ap, String, true, List, [], ◌∷◌, none}
use connected_vehicle_health.Method.{Session, Ended}
use connected_vehicle_health.Method.Rules.{
  bind-Ended, call-Ended, modify-Ended, log-Ended, log-last, pure-last, raise-last, branch-Ended,
  handle-Ended,
}
use connected_vehicle_health.Mqtt.Service.{MqttManager, Publisher, connect_done, recover}
use connected_vehicle_health.Mqtt.Connect.{
  Calls, certificates, demand_result, demand, install, install_missing, provision_certificates,
  attempt, cleanup, configure_tls, connect, publish,
}

module _ (calls : Calls) where
  open calls use {S}

  -- The calls that do not raise.
  module _ (P E : MqttManager → Type 0) where
    attempt-keeps :
        (text : String) (σ : Session MqttManager S)
        → P σ.self
        → Ended (λ _. P) E (attempt calls text σ)
    unfolding attempt
    attempt-keeps text σ p =
        handle-Ended P _ _ _ _ _ (call-Ended _ _ _ _ _ p (λ _ s. pure-last _ _ _ _ p))
          (λ exc σ' p'. pure-last _ _ _ _ p')

    cleanup-keeps : (σ : Session MqttManager S) → P σ.self → Ended (λ _. P) E (cleanup calls σ)
    unfolding cleanup
    cleanup-keeps σ p =
        bind-Ended (λ _. P) _ _ _ _ _ (attempt-keeps _ σ p)
          (λ _ σ1 p1.
            bind-Ended (λ _. P) _ _ _ _ _ (attempt-keeps _ σ1 p1)
              (λ _ σ2 p2. attempt-keeps _ σ2 p2))

  -- The calls that leave the fields as they are, whether they return or raise.
  module _ (P E : MqttManager → Type 0) (weaken : (m : MqttManager) → P m → E m) where
    demand-keeps :
        (text prefix : String) (timeout : ℕ) (σ : Session MqttManager S)
        → P σ.self
        → Ended (λ _. P) E (demand calls text prefix timeout σ)
    unfolding demand demand_result
    demand-keeps text prefix timeout σ p = call-Ended _ _ _ _ _ (weaken _ p) (λ response s.
        branch-Ended _ _ _ _ _ _ (λ _. pure-last _ _ _ _ p) (λ _. raise-last _ _ _ _ (weaken _ p)))

    install-keeps :
        (file : String × String) (σ : Session MqttManager S)
        → P σ.self
        → Ended (λ _. P) E (install calls file σ)
    unfolding install
    install-keeps (remote_name, local_path) σ p = call-Ended _ _ _ _ _ (weaken _ p) (λ source s.
        branch-Ended _ _ _ _ _ _ (λ _. raise-last _ _ _ _ (weaken _ p))
          (λ _. call-Ended _ _ _ _ _ (weaken _ p) (λ _ s'. log-last _ _ _ _ p)))

    install_missing-keeps :
        (listed : String) (files : List (String × String)) (σ : Session MqttManager S)
        → P σ.self
        → Ended (λ _. P) E (install_missing calls listed files σ)
    unfolding install_missing
    install_missing-keeps listed [] σ p = pure-last _ _ _ _ p
    install_missing-keeps listed (file ∷ files) σ p =
        bind-Ended (λ _. P) _ _ _ _ _
          (branch-Ended _ _ _ _ _ _ (λ _. pure-last _ _ _ _ p) (λ _. install-keeps file σ p))
          (λ _ σ' p'. install_missing-keeps listed files σ' p')

    provision_certificates-keeps :
        (σ : Session MqttManager S) → P σ.self → Ended (λ _. P) E (provision_certificates calls σ)
    unfolding provision_certificates
    provision_certificates-keeps σ p =
        call-Ended _ _ _ _ _ (weaken _ p)
          (λ listed s. install_missing-keeps listed certificates (record σ { line = s }) p)

    configure_tls-keeps :
        (σ : Session MqttManager S) → P σ.self → Ended (λ _. P) E (configure_tls calls σ)
    unfolding configure_tls
    configure_tls-keeps σ p =
        let e = weaken σ.self p in
        call-Ended _ _ _ _ _ e (λ _ s1. call-Ended _ _ _ _ _ e (λ _ s2.
          call-Ended _ _ _ _ _ e (λ _ s3. call-Ended _ _ _ _ _ e (λ _ s4.
            call-Ended _ _ _ _ _ e
              (λ _ s5. call-Ended _ _ _ _ _ e (λ _ s6. pure-last _ _ _ _ p))))))

  -- The manager as it was when the call began, with another state.
  abbrev InState : Publisher → String → MqttManager → Type 0
  InState p state m = m ≡ record p.mqtt { state = state }

  -- What the publishing task does after a raise is what it does without the changes of the call.
  abbrev pub IsLost : Publisher → MqttManager → Type 0
  IsLost p m = (exc : String) → recover exc (record p { mqtt = m }) ≡ recover exc p

  lost : (p : Publisher) (state : String) (m : MqttManager) → InState p state m → IsLost p m
  unfolding recover
  lost p state m q exc = ap (λ m'. recover exc (record p { mqtt = m' })) q

  abbrev in_state : String → MqttManager → MqttManager
  in_state text m = record m { state = text }

  abbrev connected_of : MqttManager → MqttManager
  connected_of m = record m { connected = true; state = "CONNECTED"; last_error = none }

  -- Whatever the modem answers: when `_connect` returns, the manager is as the step `connect_done`
  -- of the publishing task leaves it; when it raises, its changes make no difference to the
  -- `except` clause of the task.
  pub connect-refines :
      (p : Publisher) (σ : Session MqttManager S)
      → σ.self ≡ p.mqtt
      → Ended (λ _ m. m ≡ (connect_done p).mqtt) (IsLost p) (connect calls σ)
  unfolding connect connect_done
  connect-refines p σ at =
      let Now = InState p "PROVISIONING" in
      let Then = InState p "CONNECTING" in
      let now = lost p "PROVISIONING" in
      let then = lost p "CONNECTING" in
      modify-Ended _ _ _ _ _ (
        bind-Ended (λ _. Now) _ _ _ _ _
          (provision_certificates-keeps Now (IsLost p) now _ (ap (in_state "PROVISIONING") at))
          (λ _ σ1 q1.
            bind-Ended (λ _. Now) _ _ _ _ _ (cleanup-keeps Now (IsLost p) σ1 q1)
              (λ _ σ2 q2.
                bind-Ended (λ _. Now) _ _ _ _ _ (configure_tls-keeps Now (IsLost p) now σ2 q2)
                  (λ _ σ3 q3.
                    bind-Ended (λ _. Now) _ _ _ _ _ (demand-keeps Now (IsLost p) now _ _ _ σ3 q3)
                      (λ _ σ4 q4. call-Ended _ _ _ _ _ (now _ q4) (λ _ s5.
                        call-Ended _ _ _ _ _ (now _ q4) (λ _ s6. modify-Ended _ _ _ _ _ (
                          bind-Ended (λ _. Then) _ _ _ _ _
                            (demand-keeps Then (IsLost p) then _ _ _ _
                              (ap (in_state "CONNECTING") q4))
                            (λ _ σ7 q7. call-Ended _ _ _ _ _ (then _ q7) (λ _ s8.
                              bind-Ended (λ _. Then) _ _ _ _ _
                                (demand-keeps Then (IsLost p) then _ _ _ _ q7)
                                (λ _ σ9 q9. modify-Ended _ _ _ _ _ (
                                  log-Ended _ _ _ _ _
                                    (log-last _ _ _ _ (ap connected_of q9))))))))))))))

  -- Whatever the modem answers, `_publish` leaves the manager's fields as they are.
  pub publish-keeps :
      (topic payload : String) (σ : Session MqttManager S)
      → Ended (λ _ m. m ≡ σ.self) (λ m. m ≡ σ.self) (publish calls topic payload σ)
  unfolding publish
  publish-keeps topic payload σ = call-Ended _ _ _ _ _ refl (λ _ s1.
      call-Ended _ _ _ _ _ refl
        (λ _ s2. demand-keeps (λ m. m ≡ σ.self) (λ m. m ≡ σ.self) (λ m p. p) _ _ _ _ refl))

  -- The clean-up after a raise returns, whatever the modem answers or raises.
  pub cleanup-returns :
      (σ : Session MqttManager S) → Ended (λ _ m. m ≡ σ.self) (λ _. ⊥) (cleanup calls σ)
  cleanup-returns σ = cleanup-keeps (λ m. m ≡ σ.self) (λ _. ⊥) σ refl
