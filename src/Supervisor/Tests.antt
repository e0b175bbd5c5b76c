-- ===== src/Supervisor/Tests.antt =====
-- Passes of the supervisor of gateway.py, and the theorem at them.
use connected_vehicle_health.Prelude.{
  ℕ, zero, suc, ◌≡◌, refl, true, false, List, [], ◌∷◌, All, arith,
}
use connected_vehicle_health.Text.Decimal.{show_decimal}
use connected_vehicle_health.Logger.{Entry, GatewayLogger}
use connected_vehicle_health.Logger.Contents.{IsValid}
use connected_vehicle_health.Supervisor.Memory.{Reading, check_all}
use connected_vehicle_health.Supervisor.Memory.Quiet.{IsRest, check_all-IsRest}
use connected_vehicle_health.Supervisor.{Findings, restart_web, start, passes}
use connected_vehicle_health.Supervisor.Health.{IsDown, RestartsWeb, passes-restart}

abbrev down : Findings
down = record {
  ready = true;
  recovered = false;
  probe = false;
  tcp_restarts = true;
  web_restarts = true;
}

abbrev copies : ℕ → List Findings
copies zero = []
copies (suc n) = down ∷ copies n

-- From the start the first probe is at once, so 13 passes are enough, and 12 are not.
thirteen : (passes (copies 13) start ≡ restart_web ∷ []) × (passes (copies 12) start ≡ [])
unfolding passes start
thirteen = (refl, refl)

copies-IsDown : (n : ℕ) → All IsDown (copies n)
copies-IsDown zero = tt
copies-IsDown (suc n) = (record { networked = refl; silent = refl }, copies-IsDown n)

passes-restart_example : RestartsWeb (passes (copies 18) start)
passes-restart_example = passes-restart (copies 18) start (copies-IsDown 18) (omega arith)

abbrev entry : ℕ → Entry
entry n = record { timestamp = "12:00"; level = "INFO"; message = "packet" }

abbrev records : ℕ → List Entry
records zero = []
records (suc n) = entry n ∷ records n

-- A log with thirty records, and two readings of a low memory.
abbrev thirty : GatewayLogger
thirty = record { capacity = 500; items = records 30; next = 0 }

thirty-IsValid : IsValid thirty
thirty-IsValid = record {
  positive = omega arith;
  bounded = omega arith;
  next_in = omega arith;
  young = λ _. refl;
}

abbrev readings : List Reading
readings =
    record { now = "12:01"; free_memory = 50000 }
    ∷ record { now = "12:02"; free_memory = 40000 }
    ∷ []

check_all-IsRest_example : IsRest thirty (check_all show_decimal readings true thirty)
check_all-IsRest_example =
    check_all-IsRest show_decimal readings thirty (omega arith, (omega arith, tt)) thirty-IsValid
