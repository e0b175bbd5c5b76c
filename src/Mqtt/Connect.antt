-- ===== src/Mqtt/Connect.antt =====
-- `_connect`, `_provision_certificates`, `_publish` and `_cleanup` of mqtt_manager.py: the commands
-- that they give the modem, and what they do with its answers.
pub mod Connected
mod Tests
use Prim.Native.String.{◌++◌}
use connected_vehicle_health.Prelude.{
  ℕ, String, Bool, true, false, ◌||◌, Option, none, List, [], ◌∷◌, length, ltb, ◌==◌,
}
use connected_vehicle_health.Prelude.Int.{ℤ}
use connected_vehicle_health.Config.{
  modem_command_timeout_ms, mqtt_broker, mqtt_port, mqtt_client_id, mqtt_keepalive_seconds,
  mqtt_ca_file, mqtt_cert_file, mqtt_key_file, mqtt_command_topic,
}
use connected_vehicle_health.Text.Search.{occurs_in}
use connected_vehicle_health.Method.{
  Result, Method, ◌>>=◌, ◌>>◌, pure, raise, modify, log, info, when, branch, handle, on_line,
}
use connected_vehicle_health.Mqtt.Events.{require_result}
use connected_vehicle_health.Mqtt.Service.{MqttManager}

-- The methods of the ModemManager that these use, the files, and functions of MicroPython.
pub record Calls : Type 1 where
  pub S : Type 0
  pub command : String → ℕ → Bool → S → Result String × S
  pub command_until : String → String → ℕ → S → Result String × S
  pub prompt_upload : String → List ℕ → ℕ → S → Result String × S
  -- the bytes of a file, or the OSError of `open`
  pub read_file : String → Result (List ℕ)
  -- `encode("utf-8")`
  pub encode : String → List ℕ
  pub int_of : String → Option ℤ
  -- `%d`
  pub show_count : ℕ → String

-- The names of the certificates on the modem, with their files.
abbrev pub certificates : List (String × String)
certificates =
    ("aws-root.pem", mqtt_ca_file)
    ∷ ("aws-device.pem", mqtt_cert_file)
    ∷ ("aws-key.pem", mqtt_key_file)
    ∷ []

module _ (calls : Calls) where
  open calls use {S, command, command_until, prompt_upload, read_file, encode, int_of, show_count}

  abbrev pub send : String → Method MqttManager S String
  send text = on_line (command text modem_command_timeout_ms false)

  -- `_require_result`
  unfoldable pub demand_result : String → String → Method MqttManager S (Unit {0})
  unfolding require_result
  demand_result response prefix =
      branch (require_result int_of response prefix) (pure tt)
        (raise (prefix ++ " operation failed"))

  -- A command with its answer, whose result has to be a zero.
  unfoldable pub demand : String → String → ℕ → Method MqttManager S (Unit {0})
  unfolding demand_result
  demand text prefix timeout = do
    response ← on_line (command_until text prefix timeout)
    demand_result response prefix

  -- The installation of one certificate.
  unfoldable pub install : String × String → Method MqttManager S (Unit {0})
  install (remote_name, local_path) = do
    source ← on_line (λ s. (read_file local_path, s))
    branch (length source == 0 || ltb 10240 (length source))
        (raise ("invalid certificate file " ++ local_path))
        (do
          on_line (
              prompt_upload
                ("AT+CCERTDOWN=\"" ++ remote_name ++ "\"," ++ show_count (length source)) source
                120000)
          log (info ("MQTT certificate installed: " ++ remote_name)))

  -- The loop of `_provision_certificates`.
  unfoldable pub install_missing : String → List (String × String) → Method MqttManager S (Unit {0})
  unfolding install occurs_in
  install_missing listed [] = pure tt
  install_missing listed (file ∷ files) = do
    branch (occurs_in file.0 listed) (pure tt) (install file)
    install_missing listed files

  -- `_provision_certificates`
  unfoldable pub provision_certificates : Method MqttManager S (Unit {0})
  unfolding install_missing
  provision_certificates = do
    listed ← on_line (command "AT+CCERTLIST" 10000 true)
    install_missing listed certificates

  -- A command whose exception is passed over.
  unfoldable pub attempt : String → Method MqttManager S (Unit {0})
  attempt text = handle (on_line (command text 5000 true) >> pure tt) (λ exc. pure tt)

  -- `_cleanup`
  unfoldable pub cleanup : Method MqttManager S (Unit {0})
  unfolding attempt
  cleanup = do attempt "AT+CMQTTDISC=0,30"; attempt "AT+CMQTTREL=0"; attempt "AT+CMQTTSTOP"

  -- The TLS settings of `_connect`.
  unfoldable pub configure_tls : Method MqttManager S (Unit {0})
  configure_tls = do
    send "AT+CSSLCFG=\"sslversion\",0,3"
    send "AT+CSSLCFG=\"authmode\",0,2"
    send "AT+CSSLCFG=\"cacert\",0,\"aws-root.pem\""
    send "AT+CSSLCFG=\"clientcert\",0,\"aws-device.pem\""
    send "AT+CSSLCFG=\"clientkey\",0,\"aws-key.pem\""
    send "AT+CSSLCFG=\"enableSNI\",0,1"
    pure tt

  -- `_connect`
  unfoldable pub connect : Method MqttManager S (Unit {0})
  unfolding provision_certificates cleanup configure_tls demand
  connect = do
    modify (λ m. record m { state = "PROVISIONING" })
    provision_certificates
    cleanup
    configure_tls
    demand "AT+CMQTTSTART" "+CMQTTSTART:" 30000
    send ("AT+CMQTTACCQ=0,\"" ++ mqtt_client_id ++ "\",1")
    send "AT+CMQTTSSLCFG=0,0"
    modify (λ m. record m { state = "CONNECTING" })
    demand
        ("AT+CMQTTCONNECT=0,\"tcp://"
          ++ mqtt_broker
          ++ ":"
          ++ show_count mqtt_port
          ++ "\","
          ++ show_count mqtt_keepalive_seconds
          ++ ",1")
        "+CMQTTCONNECT:" 90000
    on_line (
        prompt_upload
          ("AT+CMQTTSUBTOPIC=0," ++ show_count (length (encode mqtt_command_topic)) ++ ",1")
          (encode mqtt_command_topic) 10000)
    demand "AT+CMQTTSUB=0" "+CMQTTSUB:" 30000
    modify (λ m. record m { connected = true; state = "CONNECTED"; last_error = none })
    log (info "MQTT connected to AWS IoT Core")
    log (info ("MQTT subscribed: " ++ mqtt_command_topic))

  -- `_publish`
  unfoldable pub publish : String → String → Method MqttManager S (Unit {0})
  unfolding demand
  publish topic payload = do
    on_line (
        prompt_upload ("AT+CMQTTTOPIC=0," ++ show_count (length (encode topic))) (encode topic)
          10000)
    on_line (
        prompt_upload ("AT+CMQTTPAYLOAD=0," ++ show_count (length (encode payload)))
          (encode payload) 30000)
    demand "AT+CMQTTPUB=0,1,60" "+CMQTTPUB:" 70000
