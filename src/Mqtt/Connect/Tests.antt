-- ===== src/Mqtt/Connect/Tests.antt =====
-- A modem that grants everything, and one that refuses the connection, for the theorems on `_connect`.
use connected_vehicle_health.Prelude.{
  ℕ, suc, ◌≡◌, refl, String, false, Option, none, some, [], ◌∷◌, str_eq, if◌then◌else◌,
}
use connected_vehicle_health.Prelude.Int.{ℤ, pos}
use connected_vehicle_health.Text.{strip}
use connected_vehicle_health.Text.Decimal.{read_onto, show_decimal}
use connected_vehicle_health.Method.{
  ok, raised, Session, Ended, ◌>>=◌, modify, log, on_line, pure, raise, when, branch, handle,
}
use connected_vehicle_health.Mqtt.Service.{MqttManager, start, connect_done, init}
use connected_vehicle_health.Mqtt.Connect.{Calls, connect, publish, cleanup}
use connected_vehicle_health.Mqtt.Connect.Connected.{
  IsLost, connect-refines, publish-keeps, cleanup-returns,
}

abbrev digits : String → Option ℤ
digits s = elim (read_onto 0 s) [ none ↦ none | some n ↦ some (pos n) ]

-- The result of a command, which is refused if it waits for `bad`; the line counts the calls.
abbrev answer : String → String → String
answer bad marker =
    if str_eq marker bad
    then "+CMQTTCONNECT: 0,6\n"
    else if str_eq marker "+CMQTTSTART:"
    then "+CMQTTSTART: 0\n"
    else if str_eq marker "+CMQTTCONNECT:"
    then "+CMQTTCONNECT: 0,0\n"
    else if str_eq marker "+CMQTTSUB:"
    then "+CMQTTSUB: 0,0\n"
    else "+CMQTTPUB: 0,0\n"

abbrev modem : String → Calls
modem bad = record {
  S = ℕ;
  command = λ text timeout allow_error s. (ok "aws-root.pem aws-device.pem", suc s);
  command_until = λ text marker timeout s. (ok (answer bad marker), suc s);
  prompt_upload = λ text bytes timeout s. (ok "OK", suc s);
  read_file = λ path. ok (1 ∷ 2 ∷ []);
  encode = λ text. [];
  int_of = digits;
  show_count = show_decimal;
}

abbrev session : Session MqttManager ℕ
session = record { self = start.mqtt; line = 0; notes = [] }

connect-refines_example :
    Ended
      (λ _ m. m ≡ (connect_done start).mqtt)
      (IsLost (modem "") start)
      (connect (modem "") session)
connect-refines_example = connect-refines (modem "") start session refl

publish-keeps_example :
    Ended (λ _ m. m ≡ start.mqtt) (λ m. m ≡ start.mqtt) (publish (modem "") "dt/a" "{}" session)
publish-keeps_example = publish-keeps (modem "") "dt/a" "{}" session

cleanup-returns_example : Ended (λ _ m. m ≡ start.mqtt) (λ _. ⊥) (cleanup (modem "") session)
cleanup-returns_example = cleanup-returns (modem "") session

-- The connection stands, with the third certificate installed.
granted :
    let (r, σ) = connect (modem "") session in
    (r ≡ ok tt) × (σ.self.state ≡ "CONNECTED") × (σ.line ≡ 17)
unfolding connect ◌>>=◌ modify log on_line pure raise when branch handle read_onto start init strip
granted = (refl, refl, refl)

-- The broker refuses, and the manager is not connected.
refused :
    let (r, σ) = connect (modem "+CMQTTCONNECT:") session in
    (r ≡ raised "+CMQTTCONNECT: operation failed")
    × (σ.self.state ≡ "CONNECTING")
    × (σ.self.connected ≡ false)
unfolding connect ◌>>=◌ modify log on_line pure raise when branch handle read_onto start init strip
refused = (refl, refl, refl)
