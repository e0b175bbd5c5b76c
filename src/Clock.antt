-- ===== src/Clock.antt =====
-- time_manager.py: the synchronisation of the board's clock, less what it prints.
pub mod Synced
use connected_vehicle_health.Prelude.{
  ℕ, zero, suc, ◌*◌, String, Bool, true, false, ◌||◌, Option, none, some, leb, if◌then◌else◌,
}
use connected_vehicle_health.Config.{ntp_host, ntp_retries, ntp_retry_delay_seconds}
use connected_vehicle_health.Method.{
  Result, ok, Method, ◌>>=◌, ◌>>◌, pure, look, modify, when, branch, handle, on_line,
}

-- The variables of the module.
pub record TimeState : Type 0 where
  pub synchronized : Bool
  pub last_error : Option String

-- The board's clock, and the library that sets it.
pub record Board : Type 1 where
  pub S : Type 0
  -- the assignment of `ntptime.host`, and `ntptime.settime()`
  pub set_host : String → S → S
  pub settime : S → Result (Unit {0}) × S
  -- `time.sleep`, in milliseconds
  pub sleep : ℕ → S → S
  -- `time.localtime()[0]`
  pub year : S → ℕ

module _ (board : Board) where
  open board use {S, set_host, settime, sleep, year}

  unfoldable pub is_time_valid : S → Bool
  is_time_valid s = leb 2024 (year s)

  -- An attempt that does not raise: whether the time is valid.
  unfoldable pub set_clock : Method TimeState S Bool
  unfolding is_time_valid
  set_clock = do
    on_line settime
    valid ← look is_time_valid
    modify (λ m. record m { synchronized = valid; last_error = none })
    pure valid

  -- The loop of `sync_time`, for the attempts that are left.
  unfoldable pub attempts : ℕ → Method TimeState S Bool
  unfolding set_clock
  attempts zero = pure false
  attempts (suc left) = handle set_clock (λ exc. do
    modify (λ m. record m { last_error = some exc })
    when (leb 1 left) (on_line (λ s. (ok tt, sleep (ntp_retry_delay_seconds * 1000) s)))
    attempts left)

  -- `sync_time`, where `present` is whether the library can be imported.
  unfoldable pub sync_time : Bool → Method TimeState S Bool
  unfolding attempts
  sync_time present =
      branch present (do on_line (λ s. (ok tt, set_host ntp_host s)); attempts ntp_retries)
        (do modify (λ m. record m { last_error = some "ntptime module unavailable" }); pure false)

  -- `synchronized()`
  unfoldable pub is_synchronized : TimeState → S → Bool
  unfolding is_time_valid
  is_synchronized m s = m.synchronized || is_time_valid s
