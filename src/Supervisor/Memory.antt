-- ===== src/Supervisor/Memory.antt =====
-- The memory loop of `start_gateway` of gateway.py, with the log that it trims.
pub mod Quiet
use Prim.Native.String.{◌++◌}
use connected_vehicle_health.Prelude.{
  ℕ, String, Bool, true, false, Option, none, some, List, [], ◌∷◌, ltb, if◌then◌else◌,
}
use connected_vehicle_health.Prelude.Int.{pos}
use connected_vehicle_health.Logger.{GatewayLogger, trim, warning}

-- `log.warning`, unless one is active; `none` is an IndexError.
unfoldable pub warn_once : Bool → String → String → GatewayLogger → Option GatewayLogger
unfolding warning
warn_once true now message l = some l
warn_once false now message l = warning now message l

-- A reading of the clock's text and of the free memory.
pub record Reading : Type 0 where
  pub now : String
  pub free_memory : ℕ

module _ (show : ℕ → String) where
  -- The body of the loop: the log after it, for the variable `memory_warning_active`.
  unfoldable pub check_memory : Reading → Bool → GatewayLogger → Option GatewayLogger
  unfolding trim warn_once
  check_memory r active l =
      if ltb r.free_memory 45000
      then (elim (trim (pos 25) l) [
        | none ↦ none
        | some l' ↦ warn_once active r.now "Critical heap pressure; old logs released" l'
      ])
      else if ltb r.free_memory 55000
      then warn_once active r.now ("Low heap memory: " ++ show r.free_memory ++ " bytes") l
      else some l

  -- The variable after it.
  unfoldable pub is_low : Reading → Bool
  is_low r = ltb r.free_memory 55000

  -- The loop, for the given readings.
  unfoldable pub check_all : List Reading → Bool → GatewayLogger → Option GatewayLogger
  unfolding check_memory is_low
  check_all [] active l = some l
  check_all (r ∷ rs) active l = elim (check_memory r active l) [
    | none ↦ none
    | some l' ↦ check_all rs (is_low r) l'
  ]
