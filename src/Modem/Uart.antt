-- ===== src/Modem/Uart.antt =====
-- The loops of modem_manager.py that wait for an answer on the UART: `_command_unlocked`,
-- `_read_until`, `prompt_upload` and the loop of `test_internet`.
pub mod Ends
pub mod Serves
pub mod Event
use Prim.Native.String.{◌++◌}
use mathlib.Core.List
use connected_vehicle_health.Prelude.{
  ℕ, zero, suc, ◌+◌, min, String, Bool, true, false, ◌||◌, Option, none, some, List, [], ◌∷◌, ltb,
  if◌then◌else◌,
}
use connected_vehicle_health.Text.Search.{occurs_in}
use connected_vehicle_health.Method.{Result, ok, raised}

-- What the text received so far amounts to.
pub data Reading : Type 0 where
  complete refused waiting : Reading

-- "\r\nERROR\r\n" or "+CME ERROR:"
unfoldable pub is_error : String → Bool
unfolding occurs_in
is_error text = occurs_in "\r\nERROR\r\n" text || occurs_in "+CME ERROR:" text

-- The tests of `_read_until`; those of `_command_unlocked` look for an OK.
unfoldable pub judge_until : String → String → Reading
unfolding is_error occurs_in
judge_until marker text =
    if occurs_in marker text then complete else if is_error text then refused else waiting

-- The test of `test_internet`.
unfoldable pub judge_ping : String → Reading
unfolding occurs_in
judge_ping text =
    if occurs_in "+CPING: 3," text || occurs_in "\r\nERROR\r\n" text then complete else waiting

-- How a wait ends, with the text received.
pub data Outcome : Type 0 where
  answered : String → Outcome
  erroneous : String → Outcome
  timed_out : String → Outcome

-- The UART with the board's clock, which does not go back, and moves on in a pause.
pub record Port : Type 1 where
  pub S : Type 0
  pub now : S → ℕ
  pub read : S → Option (List ℕ) × S
  pub write : String → S → S
  pub drain : S → S
  pub sleep : ℕ → S → S
  -- `decode("utf-8", "ignore")`
  pub decode : List ℕ → String

module _ (port : Port) where
  open port use {S, now, read, write, drain, sleep, decode}

  -- A pass of the loop: the bytes received so far, and the end of the wait if there is one.
  unfoldable pub take_in : (String → Reading) → List ℕ → Option (List ℕ) → List ℕ × Option Outcome
  take_in judge response none = (response, none)
  take_in judge response (some []) = (response, none)
  take_in judge response (some (b ∷ bs)) =
      let longer = List.◌++◌ response (b ∷ bs) in
      (
        longer,
        elim (judge (decode longer)) [
          | complete ↦ some (answered (decode longer))
          | refused ↦ some (erroneous (decode longer))
          | waiting ↦ none
        ],
      )

  -- The loop, with its pause and its deadline, for at most `fuel` passes.
  unfoldable pub poll : ℕ → ℕ → (String → Reading) → ℕ → List ℕ → S → Option (Outcome × S)
  unfolding take_in
  poll pause deadline judge zero response s = none
  poll pause deadline judge (suc fuel) response s =
      let (longer, end) = take_in judge response (read s).0 in
      let more = poll pause deadline judge fuel longer (sleep pause (read s).1) in
      if ltb (now s) deadline
      then (elim end [ none ↦ more | some outcome ↦ some (outcome, (read s).1) ])
      else some (timed_out (decode response), s)

  -- The wait for at most `timeout` milliseconds, each pass with a pause of 20.
  unfoldable pub await_answer : (String → Reading) → ℕ → S → Option (Outcome × S)
  unfolding poll
  await_answer judge timeout s = poll 20 (now s + timeout) judge (suc timeout) [] s

  -- The text or the error of `_command_unlocked`.
  unfoldable pub command_result : String → Bool → Outcome → Result String
  command_result command allow_error (answered text) = ok text
  command_result command allow_error (erroneous text) =
      if allow_error then ok text else raised (command ++ " returned ERROR")
  command_result command allow_error (timed_out text) = raised (command ++ " timed out")

  -- `_command_unlocked`, and `command`, which holds the lock meanwhile.
  unfoldable pub run_command : String → ℕ → Bool → S → Option (Result String × S)
  unfolding await_answer judge_until command_result
  run_command command timeout allow_error s =
      elim (await_answer (judge_until "\r\nOK\r\n") timeout (write (command ++ "\r\n") (drain s))) [
        | none ↦ none
        | some (outcome, s') ↦ some (command_result command allow_error outcome, s')
      ]

  -- The text or the error of `_read_until`.
  unfoldable pub until_result : String → Outcome → Result String
  until_result marker (answered text) = ok text
  until_result marker (erroneous text) = raised "modem returned ERROR"
  until_result marker (timed_out text) = raised ("modem response timeout waiting for " ++ marker)

  -- `_read_until`
  unfoldable pub read_until : String → ℕ → S → Option (Result String × S)
  unfolding await_answer judge_until until_result
  read_until marker timeout s = elim (await_answer (judge_until marker) timeout s) [
    | none ↦ none
    | some (outcome, s') ↦ some (until_result marker outcome, s')
  ]

  -- `command_until`
  unfoldable pub run_command_until : String → String → ℕ → S → Option (Result String × S)
  unfolding read_until
  run_command_until command marker timeout s =
      read_until marker timeout (write (command ++ "\r\n") (drain s))

  -- `prompt_upload`, for a text
  unfoldable pub upload : String → String → ℕ → S → Option (Result String × S)
  unfolding read_until
  upload command text timeout s =
      elim (read_until ">" (min timeout 10000) (write (command ++ "\r\n") (drain s))) [
        | none ↦ none
        | some (raised exc, s') ↦ some (raised exc, s')
        | some (ok prompt, s') ↦ read_until "\r\nOK\r\n" timeout (write text s')
      ]

  unfoldable pub text_of : Outcome → String
  text_of (answered text) = text
  text_of (erroneous text) = text
  text_of (timed_out text) = text

  -- The wait of `test_internet` for the result of a ping, with the text that has arrived.
  unfoldable pub await_ping : String → ℕ → S → Option (String × S)
  unfolding await_answer judge_ping text_of
  await_ping command timeout s =
      elim (await_answer judge_ping timeout (write (command ++ "\r\n") (drain s))) [
        | none ↦ none
        | some (outcome, s') ↦ some (text_of outcome, s')
      ]
