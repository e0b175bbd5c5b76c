-- ===== src/Modem/Internet.antt =====
-- `test_internet`, `start_internet_test` and `_internet_test_task` of modem_manager.py.
pub mod Tested
use Prim.Native.String.{◌++◌}
use connected_vehicle_health.Prelude.{
  ℕ, zero, suc, ◌+◌, ◌*◌, ◌/◌, String, Bool, true, false, not, ◌||◌, Option, none, some, List, [],
  ◌∷◌, length, if◌then◌else◌,
}
use connected_vehicle_health.Prelude.Int.{ℤ, pos, negsuc, ◌+ℤ◌}
use connected_vehicle_health.Config.{modem_ping_host, modem_ping_timeout_seconds}
use connected_vehicle_health.Text.Search.{starts_with, split_on}
use connected_vehicle_health.Method.{
  Method, ◌>>=◌, ◌>>◌, pure, gets, look, modify, log, info, warning, branch, handle, finally,
  on_line,
}
use connected_vehicle_health.Modem.{ModemManager}
use connected_vehicle_health.Modem.Line.{Line}
use connected_vehicle_health.Modem.Answers.{lines_of}

-- `fields[3]`, if there are more than three fields.
unfoldable pub fourth : List String → Option String
fourth (a ∷ b ∷ c ∷ d ∷ rest) = some d
fourth _ = none

module _ (int_of : String → Option ℤ) where
  -- The latency on a line, if it has one.
  unfoldable pub latency_of : String → Option ℤ
  unfolding starts_with split_on fourth
  latency_of line =
      if starts_with "+CPING: 1," line
      then (elim (fourth (split_on "," line)) [ none ↦ none | some field ↦ int_of field ])
      else none

  -- The loop over the lines of the answer.
  unfoldable pub latencies : List String → List ℤ
  unfolding latency_of
  latencies [] = []
  latencies (line ∷ lines) =
      let rest = latencies lines in elim (latency_of line) [ none ↦ rest | some ms ↦ ms ∷ rest ]

-- `z // n` for a positive `n`
unfoldable pub floor_div : ℤ → ℕ → ℤ
floor_div (pos k) n = pos (k / n)
floor_div (negsuc k) n = negsuc (k / n)

unfoldable pub sum : List ℤ → ℤ
unfolding ◌+ℤ◌
sum [] = pos 0
sum (z ∷ zs) = z +ℤ sum zs

-- `sum(latencies) // len(latencies) if latencies else None`
unfoldable pub mean : List ℤ → Option ℤ
unfolding sum floor_div
mean [] = none
mean (z ∷ zs) = some (floor_div (sum (z ∷ zs)) (length (z ∷ zs)))

-- `bool(latencies)`
unfoldable pub any_latency : List ℤ → Bool
any_latency [] = false
any_latency (z ∷ zs) = true

-- The assignments of a test that fails.
unfoldable pub fail_test : ModemManager → ModemManager
fail_test m = record m {
  internet_ok = false;
  ping_latency_ms = none;
  internet_test_failures = m.internet_test_failures + 1;
}

module _ (line : Line) where
  open line use {S, exchange_ping, ticks, clock_text, int_of, render}

  -- The `try` of `test_internet`.
  unfoldable pub ping : Method ModemManager S (Unit {0})
  unfolding latencies lines_of mean any_latency
  ping = do
    text ← on_line (
        exchange_ping ("AT+CPING=\"" ++ modem_ping_host ++ "\",1,3,32,1000,10000,64")
          (modem_ping_timeout_seconds * 1000))
    modify (λ m. record m {
      internet_ok = any_latency (latencies int_of (lines_of text));
      ping_latency_ms = mean (latencies int_of (lines_of text));
    })
    m ← gets (λ m. m)
    branch m.internet_ok
        (log (info ("LTE internet test OK: " ++ render m.ping_latency_ms ++ " ms")))
        (do
          modify (λ m. record m { internet_test_failures = m.internet_test_failures + 1 })
          log (warning "LTE internet test failed"))

  -- `test_internet`
  unfoldable pub test_internet : Method ModemManager S (Unit {0})
  unfolding fail_test ping
  test_internet = do
    now ← look ticks
    modify (λ m. record m { last_test_ticks = some now })
    text ← look clock_text
    modify (λ m. record m { last_internet_test = text })
    m ← gets (λ m. m)
    branch (not m.responding || not m.data_active) (modify fail_test)
        (handle ping (λ exc. do modify fail_test; log (warning ("LTE internet test: " ++ exc))))

  -- `start_internet_test`: whether it starts a task.
  unfoldable pub start_internet_test : Method ModemManager S Bool
  start_internet_test = do
    running ← gets (λ m. m.internet_test_running)
    branch running (pure false)
        (do modify (λ m. record m { internet_test_running = true }); pure true)

  -- `_internet_test_task`
  unfoldable pub internet_test_task : Method ModemManager S (Unit {0})
  unfolding test_internet
  internet_test_task = finally test_internet (λ m. record m { internet_test_running = false })
