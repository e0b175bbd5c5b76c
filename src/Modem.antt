-- ===== src/Modem.antt =====
-- modem_manager.py: the modem's answers, the waiting for them, and the supervision of the data session.
pub mod Answers
pub mod Uart
pub mod Line
pub mod Attach
pub mod Internet
pub mod Monitor
mod Tests
use connected_vehicle_health.Prelude.{ℕ, String, Bool, false, Option, none}
use connected_vehicle_health.Prelude.Int.{ℤ}

-- `state` in `_configure_and_check`: the SIM, the network, the address and whether data is active.
pub record Logged : Type 0 where
  pub sim_status : String
  pub registration : String
  pub mobile_ip : Option String
  pub data_active : Bool

-- The fields of a `ModemManager`, but for its pins, its UART and its lock.
pub record ModemManager : Type 0 where
  pub running : Bool
  pub responding : Bool
  pub sim_status : String
  pub operator : String
  pub registration : String
  pub signal_csq : Option ℤ
  pub signal_dbm : Option ℤ
  pub data_attached : Bool
  pub data_active : Bool
  pub mobile_ip : Option String
  pub model : String
  pub last_check : String
  pub last_error : Option String
  pub reconnect_count : ℕ
  pub internet_ok : Bool
  pub ping_latency_ms : Option ℤ
  pub last_internet_test : String
  pub internet_test_failures : ℕ
  pub internet_test_running : Bool
  pub last_test_ticks : Option ℕ
  pub last_logged_state : Option Logged
  pub pdp_configured : Bool

-- `__init__`
unfoldable pub init : ModemManager
init = record {
  running = false;
  responding = false;
  sim_status = "UNKNOWN";
  operator = "UNKNOWN";
  registration = "NOT REGISTERED";
  signal_csq = none;
  signal_dbm = none;
  data_attached = false;
  data_active = false;
  mobile_ip = none;
  model = "A7670";
  last_check = "Never";
  last_error = none;
  reconnect_count = 0;
  internet_ok = false;
  ping_latency_ms = none;
  last_internet_test = "Never";
  internet_test_failures = 0;
  internet_test_running = false;
  last_test_ticks = none;
  last_logged_state = none;
  pdp_configured = false;
}
