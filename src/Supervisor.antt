-- ===== src/Supervisor.antt =====
-- `_service_supervisor` of gateway.py: one pass of its loop, with what it learns from the network.
pub mod Health
pub mod Memory
mod Tests
use connected_vehicle_health.Prelude.{
  ℕ, ◌+◌, Bool, true, false, not, List, [], ◌∷◌, ◌++◌, leb, if◌then◌else◌,
}
use connected_vehicle_health.Config.{
  http_health_interval_seconds, http_health_failure_limit, wifi_monitor_interval_seconds,
}

-- The local variables of the loop.
pub record Watch : Type 0 where
  pub http_failures : ℕ
  pub elapsed : ℕ

unfoldable pub start : Watch
start = record { http_failures = 0; elapsed = http_health_interval_seconds }

-- What a pass finds: the network's state and whether its recovery succeeds, the result of the
-- probe, and whether each restart returns or raises an error.
pub record Findings : Type 0 where
  pub ready : Bool
  pub recovered : Bool
  pub probe : Bool
  pub tcp_restarts : Bool
  pub web_restarts : Bool

-- The calls of `restart`.
pub data Action : Type 0 where
  restart_tcp restart_web : Action

-- The branch without a network.
unfoldable pub without_wifi : Findings → Watch → Watch × List Action
without_wifi f w =
    if not f.recovered
    then (w, [])
    else if not f.tcp_restarts
    then (w, restart_tcp ∷ [])
    else if not f.web_restarts
    then (w, restart_tcp ∷ restart_web ∷ [])
    else (record w { http_failures = 0 }, restart_tcp ∷ restart_web ∷ [])

-- The probe, once it is due.
unfoldable pub probe_http : Findings → Watch → Watch × List Action
probe_http f w =
    if f.probe
    then (record { http_failures = 0; elapsed = 0 }, [])
    else if leb http_health_failure_limit (w.http_failures + 1)
    then (
      record { http_failures = if f.web_restarts then 0 else w.http_failures + 1; elapsed = 0 },
      restart_web ∷ [],
    )
    else (record { http_failures = w.http_failures + 1; elapsed = 0 }, [])

-- The branch with a network.
unfoldable pub with_wifi : Findings → Watch → Watch × List Action
unfolding probe_http
with_wifi f w =
    if leb http_health_interval_seconds (w.elapsed + wifi_monitor_interval_seconds)
    then probe_http f w
    else (record w { elapsed = w.elapsed + wifi_monitor_interval_seconds }, [])

-- One pass of the loop.
unfoldable pub pass : Findings → Watch → Watch × List Action
unfolding without_wifi with_wifi
pass f w = if not f.ready then without_wifi f w else with_wifi f w

-- The passes one after the other, and all their calls.
unfoldable pub passes : List Findings → Watch → List Action
unfolding pass
passes [] w = []
passes (f ∷ fs) w = (pass f w).1 ++ passes fs (pass f w).0
