-- ===== src/Tcp/Server.antt =====
-- The loop of `handle` of tcp_server.py with its errors, and the rate of messages.
pub mod Intake
use Prim.Native.String.{◌++◌}
use mathlib.Core.List
use connected_vehicle_health.Prelude.{
  ℕ, ◌+◌, String, Bool, true, false, Option, none, some, List, [], ◌∷◌, leb, if◌then◌else◌,
}
use connected_vehicle_health.Prelude.Int.{ℤ, pos, at_least_zero}
use connected_vehicle_health.Method.{Result, ok, raised}
use connected_vehicle_health.Json.{Value, null, bool, num, str, arr, obj}
use connected_vehicle_health.Devices.{DeviceManager, update}
use connected_vehicle_health.Mqtt.Queue.{Outbox, enqueue}

-- The fields of a `TCPServer` that its methods compute; `R` is the type of a rate.
pub record TcpServer (R : Type 0) : Type 0 where
  pub packet_count : ℕ
  pub last_client_ip : String
  pub last_json : String
  pub last_receive_time : String
  pub rate_count : ℕ
  pub rate_started : ℕ
  pub packets_per_second : R

-- The server, what it shares with the other services, and the lines that it has logged.
pub record Gateway (R : Type 0) : Type 0 where
  pub tcp : TcpServer R
  pub devices : DeviceManager
  pub mqtt : Option Outbox
  pub logged : List String

-- `parsed is not None`
unfoldable pub is_present : {N : Type 0} → Value N → Bool
is_present null = false
is_present _ = true

-- `logger.info` or `logger.warning`, where there is a line.
unfoldable pub with_line : Option String → List String → List String
with_line none lines = lines
with_line (some line) lines = List.◌++◌ lines (line ∷ [])

-- `rate count elapsed` is `round(count * 1000.0 / elapsed, 2)`, and `ticks_diff` the board's.
module _ {R : Type 0} (rate : ℕ → ℕ → R) (zero_rate : R) (ticks_diff : ℕ → ℕ → ℤ) where
  -- `__init__`, at the tick `now`.
  unfoldable pub init : ℕ → TcpServer R
  init now = record {
    packet_count = 0;
    last_client_ip = "None";
    last_json = "None";
    last_receive_time = "Never";
    rate_count = 0;
    rate_started = now;
    packets_per_second = zero_rate;
  }

  -- `_update_rate`
  unfoldable pub update_rate : ℕ → TcpServer R → TcpServer R
  update_rate now t =
      let elapsed = at_least_zero (ticks_diff now t.rate_started) in
      if leb 1000 elapsed
      then record t {
        packets_per_second = rate t.rate_count elapsed;
        rate_count = 0;
        rate_started = now;
      }
      else t

  -- `current_rate`
  unfoldable pub current_rate : ℕ → TcpServer R → R
  current_rate now t =
      if leb 2000 (at_least_zero (ticks_diff now t.rate_started))
      then zero_rate
      else t.packets_per_second

  -- The assignments to the server's own fields.
  unfoldable pub note_packet : ℕ → String → String → String → TcpServer R → TcpServer R
  unfolding update_rate
  note_packet ticks now ip payload t =
      record (update_rate ticks
        (record t { packet_count = t.packet_count + 1; rate_count = t.rate_count + 1 })) {
          last_client_ip = ip;
          last_json = payload;
          last_receive_time = now;
        }

  module _ {N : Type 0} (render : Value N → String) (exc : String) where
    -- The call of `enqueue`, whose error, with the text `exc`, is logged.
    unfoldable pub queue_message : String → Value N → Gateway R → Gateway R
    unfolding enqueue
    queue_message payload parsed g = elim g.mqtt [
      | none ↦ g
      | some outbox ↦
          if is_present parsed
          then (elim (enqueue render payload parsed outbox) [
            | none ↦ record g { logged = with_line (some ("MQTT queue: " ++ exc)) g.logged }
            | some (accepted, outbox') ↦ record g { mqtt = some outbox' }
          ])
          else g
    ]

    -- What follows the acknowledgement of a message.
    unfoldable pub accept : ℕ → String → String → String → Value N → Gateway R → Gateway R
    unfolding note_packet update queue_message with_line
    accept ticks now ip payload parsed g =
        let (devices, line) = update render now ip payload parsed g.devices in
        queue_message payload parsed (record g {
          tcp = note_packet ticks now ip payload g.tcp;
          devices = devices;
          logged = with_line line g.logged;
        })

    -- The `except` of `handle`: the error is logged, and the connection ends.
    unfoldable pub client_error : String → String → Gateway R → Gateway R
    unfolding with_line
    client_error ip error g = record g {
      logged = with_line (some ("TCP client " ++ ip ++ ": " ++ error)) g.logged;
    }

    -- The line that is logged where `parse_json` raises an error, and what goes on with `None`.
    unfoldable pub check_json : String → Option (Value N) → Gateway R → Value N × Gateway R
    unfolding with_line
    check_json ip none g = (
      null,
      record g { logged = with_line (some ("Invalid JSON received from " ++ ip)) g.logged },
    )
    check_json ip (some parsed) g = (parsed, g)

    -- A message from `ip`, and whether the connection goes on. `decoded` is what its reading and
    -- decoding give, `parsed` is `none` where `parse_json` raises an error, and `sent` is what the
    -- writing of the acknowledgement gives.
    unfoldable pub receive_message :
        ℕ
        → String
        → String
        → Result String
        → Option (Value N)
        → Result (Unit {0})
        → Gateway R
        → Bool × Gateway R
    unfolding accept client_error check_json
    receive_message ticks now ip (raised error) parsed sent g = (false, client_error ip error g)
    receive_message ticks now ip (ok payload) parsed sent g =
        let (value, g') = check_json ip parsed g in
        elim sent [
          | raised error ↦ (false, client_error ip error g')
          | ok _ ↦ (true, accept ticks now ip payload value g')
        ]
