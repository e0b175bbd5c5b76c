-- ===== src/Web.antt =====
-- web_server.py: the counters of the HTTP server, and the requests that it takes at the same time.
pub mod Route
pub mod Handle
pub mod Admission
mod Tests
use connected_vehicle_health.Prelude.{ℕ, ◌+◌, ◌-◌, Bool, true, false, ◌||◌, leb, if◌then◌else◌}
use connected_vehicle_health.Config.{http_max_active_requests, http_gc_interval_requests}

-- The fields of a `WebServer`, but for the objects that it refers to.
pub record WebServer : Type 0 where
  pub running : Bool
  pub requests_since_gc : ℕ
  pub active_requests : ℕ
  pub rejected_requests : ℕ
  pub restart_count : ℕ

unfoldable pub init : WebServer
init = record {
  running = false;
  requests_since_gc = 0;
  active_requests = 0;
  rejected_requests = 0;
  restart_count = 0;
}

-- The beginning of `handle`, up to its first await: whether the request is taken.
unfoldable pub admit : WebServer → Bool × WebServer
admit w =
    if leb http_max_active_requests w.active_requests
    then (false, record w { rejected_requests = w.rejected_requests + 1 })
    else (true, record w { active_requests = w.active_requests + 1 })

-- The `finally` of `handle`, and whether it collects; `low` is whether the free memory is below its
-- limit.
unfoldable pub finish : Bool → WebServer → WebServer × Bool
finish low w =
    let ended = record w {
      active_requests = w.active_requests - 1;
      requests_since_gc = w.requests_since_gc + 1;
    } in
    if leb http_gc_interval_requests ended.requests_since_gc || low
    then (record ended { requests_since_gc = 0 }, true)
    else (ended, false)

-- `start`, once the server listens.
unfoldable pub started : WebServer → WebServer
started w = record w { running = true }

-- `restart`: what it writes before it waits for the new server, and after.
unfoldable pub stopped : WebServer → WebServer
stopped w = record w { running = false }

unfoldable pub restarted : WebServer → WebServer
unfolding started
restarted w = record (started w) { restart_count = w.restart_count + 1 }
