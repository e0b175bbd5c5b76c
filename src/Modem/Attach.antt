-- ===== src/Modem/Attach.antt =====
-- `_configure_and_check` of modem_manager.py: one check of the modem, its network and its data session.
pub mod Same
pub mod Checked
use Prim.Native.String.{◌++◌}
use connected_vehicle_health.Prelude.{
  ℕ, String, Bool, true, false, not, ◌&&◌, ◌||◌, Option, none, some, str_eq, if◌then◌else◌,
}
use connected_vehicle_health.Config.{modem_apn, modem_command_timeout_ms}
use connected_vehicle_health.Text.Search.{occurs_in}
use connected_vehicle_health.Method.{
  Method, Session, ◌>>=◌, ◌>>◌, pure, gets, look, modify, log, info, when, branch, on_line,
}
use connected_vehicle_health.Modem.{ModemManager, Logged}
use connected_vehicle_health.Modem.Line.{Line}
use connected_vehicle_health.Modem.Answers.{
  after_colon, identity_of, operator_of, ip_address_of, set_signal, set_registration,
}

-- `bool(self.mobile_ip)`: an address that is read is not empty.
unfoldable pub has_address : Option String → Bool
has_address none = false
has_address (some ip) = true

-- `self.sim_status == "READY" and self.registration == "REGISTERED"`
unfoldable pub is_ready : ModemManager → Bool
is_ready m = str_eq m.sim_status "READY" && str_eq m.registration "REGISTERED"

unfoldable pub logged_of : ModemManager → Logged
logged_of m = record {
  sim_status = m.sim_status;
  registration = m.registration;
  mobile_ip = m.mobile_ip;
  data_active = m.data_active;
}

unfoldable pub same_text : Option String → Option String → Bool
same_text none none = true
same_text (some a) (some b) = str_eq a b
same_text _ _ = false

unfoldable pub same_bool : Bool → Bool → Bool
same_bool true b = b
same_bool false b = not b

-- `state == self._last_logged_state`
unfoldable pub same_state : Logged → Option Logged → Bool
unfolding same_text same_bool
same_state state none = false
same_state state (some last) =
    str_eq state.sim_status last.sim_status
    && str_eq state.registration last.registration
    && same_text state.mobile_ip last.mobile_ip
    && same_bool state.data_active last.data_active

unfoldable pub address_text : Option String → String
address_text none = "None"
address_text (some ip) = ip

module _ (line : Line) where
  open line use {S, command, clock_text, int_of, render}

  -- `command` with its default timeout, where an error is not allowed.
  abbrev pub ask : String → Method ModemManager S String
  ask text = on_line (command text modem_command_timeout_ms false)

  -- The first part: the modem, its SIM, the signal and the network.
  unfoldable pub identify : Method ModemManager S (Unit {0})
  unfolding identity_of after_colon operator_of set_signal set_registration
  identify = do
    modify (λ m. record m { responding = true })
    identity ← ask "ATI"
    modify (λ m. record m { model = identity_of identity })
    pin ← ask "AT+CPIN?"
    modify (λ m. record m { sim_status = after_colon pin "+CPIN:" })
    quality ← ask "AT+CSQ"
    modify (set_signal int_of (after_colon quality "+CSQ:"))
    registered ← ask "AT+CEREG?"
    modify (set_registration int_of registered)
    network ← ask "AT+COPS?"
    modify (λ m. record m { operator = operator_of network })

  -- The access point, once in a modem session.
  unfoldable pub define_context : Method ModemManager S (Unit {0})
  define_context = do
    configured ← gets (λ m. m.pdp_configured)
    when (not configured) (do
      ask ("AT+CGDCONT=1,\"IP\",\"" ++ modem_apn ++ "\"")
      modify (λ m. record m { pdp_configured = true }))

  unfoldable pub attach : Method ModemManager S (Unit {0})
  unfolding after_colon
  attach = do
    answer ← ask "AT+CGATT?"
    modify (λ m. record m { data_attached = str_eq (after_colon answer "+CGATT:") "1" })
    attached ← gets (λ m. m.data_attached)
    when (not attached) (do
      on_line (command "AT+CGATT=1" 10000 false)
      modify (λ m. record m { data_attached = true }))

  unfoldable pub read_address : Method ModemManager S (Unit {0})
  unfolding ip_address_of
  read_address = do
    answer ← on_line (command "AT+CGPADDR=1" modem_command_timeout_ms true)
    modify (λ m. record m { mobile_ip = ip_address_of answer })

  -- The activation of the context, where there is no address: `activation_ok`.
  unfoldable pub activate_context : Option String → Method ModemManager S Bool
  unfolding read_address occurs_in
  activate_context (some ip) = pure false
  activate_context none = do
    activation ← on_line (command "AT+CGACT=1,1" 10000 true)
    read_address
    pure (not (occurs_in "ERROR" activation))

  unfoldable pub activate : Method ModemManager S (Unit {0})
  unfolding read_address activate_context has_address
  activate = do
    read_address
    activation_ok ← activate_context (← gets (λ m. m.mobile_ip))
    modify (λ m. record m { data_active = has_address m.mobile_ip || activation_ok })

  -- The branch without a SIM or a network.
  unfoldable pub clear_session : ModemManager → ModemManager
  clear_session m = record m { data_attached = false; data_active = false; mobile_ip = none }

  -- The record of a state that is not the one logged last.
  unfoldable pub log_state : Method ModemManager S (Unit {0})
  unfolding same_state logged_of address_text
  log_state = do
    m ← gets (λ m. m)
    when (not (same_state (logged_of m) m.last_logged_state)) (do
      log (
          info (
            "LTE: SIM="
            ++ m.sim_status
            ++ " NET="
            ++ m.registration
            ++ " CSQ="
            ++ render m.signal_csq
            ++ " IP="
            ++ address_text m.mobile_ip))
      modify (λ m. record m { last_logged_state = some (logged_of m) }))

  -- `_configure_and_check`
  unfoldable pub configure_and_check : Method ModemManager S (Unit {0})
  unfolding identify define_context attach activate clear_session log_state is_ready
  configure_and_check = do
    identify
    ready ← gets is_ready
    branch ready (do define_context; attach; activate) (modify clear_session)
    now ← look clock_text
    modify (λ m. record m { last_check = now; last_error = none })
    log_state
