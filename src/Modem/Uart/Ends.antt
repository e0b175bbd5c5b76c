-- ===== src/Modem/Uart/Ends.antt =====
-- Every wait of modem_manager.py for an answer ends.
use Prim.Native.String
use connected_vehicle_health.Prelude.{
  ℕ, zero, suc, ◌+◌, ◌-◌, ◌≤◌, subst, ◌<◌, ◌≡◌, ◌⊎◌, refl, String, Bool, true, false, Option, none,
  some, List, [], ◌∷◌, ◌++◌, ltb, arith, Bool-cases, Option-cases, inl, inr,
}
use connected_vehicle_health.Text.Search.{occurs_in}
use connected_vehicle_health.Method.{Result, ok, raised}
use connected_vehicle_health.Modem.Uart.{
  Reading, complete, refused, waiting, Outcome, answered, erroneous, timed_out, Port, is_error,
  judge_until, take_in, poll, await_answer, command_result, run_command, until_result, read_until,
  await_ping, judge_ping, text_of,
}

-- The clock does not go back, and a pause takes at least its time.
pub record IsClock (port : Port) : Type 0 where
  pub read_keeps : (s : port.S) → port.now s ≤ port.now (port.read s).1
  pub write_keeps : (text : String) (s : port.S) → port.now s ≤ port.now (port.write text s)
  pub drain_keeps : (s : port.S) → port.now s ≤ port.now (port.drain s)
  pub sleep_moves : (n : ℕ) (s : port.S) → port.now s + n ≤ port.now (port.sleep n s)

-- The way a wait ends agrees with its test, and with the clock if there was no answer.
abbrev Agrees : (String → Reading) → Outcome → Type 0
Agrees judge (answered text) = judge text ≡ complete
Agrees judge (erroneous text) = judge text ≡ refused
Agrees judge (timed_out text) = Unit

abbrev IsOver : ℕ → ℕ → Outcome → Type 0
IsOver deadline now (timed_out text) = deadline ≤ now
IsOver deadline now _ = Unit

judge_until-complete :
    (marker text : String) → judge_until marker text ≡ complete → occurs_in marker text ≡ true
unfolding judge_until
judge_until-complete marker text h = ground (arith, h)

judge_until-refused :
    (marker text : String) → judge_until marker text ≡ refused → is_error text ≡ true
unfolding judge_until
judge_until-refused marker text h = ground (arith, h)

module _ (port : Port) (clock : IsClock port) where
  open port use {S, now, read, write, drain, sleep, decode}

  reading_cases : (r : Reading) → (r ≡ complete) ⊎ (r ≡ refused) ⊎ (r ≡ waiting)
  reading_cases complete = inl refl
  reading_cases refused = inr (inl refl)
  reading_cases waiting = inr (inr refl)

  -- What holds of an end of the wait, if there is one.
  abbrev EndAgrees : (String → Reading) → Option Outcome → Type 0
  EndAgrees judge none = Unit
  EndAgrees judge (some o) = Agrees judge o × ((late now : ℕ) → IsOver late now o)

  take_in-EndAgrees :
      (judge : String → Reading) (response : List ℕ) (bytes : Option (List ℕ))
      → EndAgrees judge (take_in port judge response bytes).1
  unfolding take_in
  take_in-EndAgrees judge response none = tt
  take_in-EndAgrees judge response (some []) = tt
  take_in-EndAgrees judge response (some (b ∷ bs)) =
      elim (reading_cases (judge (decode (response ++ b ∷ bs)))) [
        | inl h ↦ rw h (h, λ late now. tt)
        | inr (inl h) ↦ rw h (h, λ late now. tt)
        | inr (inr h) ↦ rw h tt
      ]

  abbrev Ends : (String → Reading) → ℕ → ℕ → Option (Outcome × S) → Type 0
  Ends judge deadline early r =
      (o : Outcome) × (s' : S) × (r ≡ some (o, s'))
      × Agrees judge o
      × IsOver deadline (now s') o
      × (early ≤ now s')

  later-Ends :
      (judge : String → Reading) (deadline : ℕ) (s : S) (r : Option (Outcome × S))
      → Ends judge deadline (now (sleep 20 (read s).1)) r
      → Ends judge deadline (now s) r
  later-Ends judge deadline s r (o, s', done, fits, over, moved) = (
    o,
    s',
    done,
    fits,
    over,
    omega (arith, moved, clock.read_keeps s, clock.sleep_moves 20 (read s).1),
  )

  poll-Ends :
      (deadline : ℕ) (judge : String → Reading) (fuel : ℕ) (response : List ℕ) (s : S)
      → deadline - now s < fuel
      → Ends judge deadline (now s) (poll port 20 deadline judge fuel response s)
  unfolding poll
  poll-Ends deadline judge zero response s enough = absurd (omega (arith, enough))
  poll-Ends deadline judge (suc fuel) response s enough =
      let taken = take_in port judge response (read s).0 in
      let agrees = take_in-EndAgrees judge response (read s).0 in
      elim (Bool-cases (ltb (now s) deadline)) [
        | inr late ↦ rw late (timed_out (decode response), s, refl, tt, ground arith, omega arith)
        | inl early ↦ elim (Option-cases taken.1) [
          | inl go ↦
              rw (early, go)
                (later-Ends judge deadline s
                  (poll port 20 deadline judge fuel taken.0 (sleep 20 (read s).1))
                  (poll-Ends deadline judge fuel taken.0 (sleep 20 (read s).1)
                    (ground (arith, clock.read_keeps s, clock.sleep_moves 20 (read s).1))))
          | inr (o, end) ↦
              let (fits, over) = subst (EndAgrees judge) end agrees in
              rw (early, end)
                (o, (read s).1, refl, fits, over deadline (now (read s).1), clock.read_keeps s)
        ]
      ]

  await_answer-Ends :
      (judge : String → Reading) (timeout : ℕ) (s : S)
      → Ends judge (now s + timeout) (now s) (await_answer port judge timeout s)
  unfolding await_answer
  await_answer-Ends judge timeout s =
      poll-Ends (now s + timeout) judge (suc timeout) [] s (omega arith)

  -- A text holds the marker, or is an error that the caller allows.
  abbrev pub IsAnswer : String → Bool → String → Type 0
  IsAnswer marker allow_error text =
      (occurs_in marker text ≡ true) ⊎ ((allow_error ≡ true) × (is_error text ≡ true))

  -- What `command` returns or raises.
  abbrev pub IsReply : String → Bool → ℕ → ℕ → Result String → Type 0
  IsReply command allow_error deadline now (ok text) = IsAnswer "\r\nOK\r\n" allow_error text
  IsReply command allow_error deadline now (raised exc) =
      ((allow_error ≡ false) × (exc ≡ String.◌++◌ command " returned ERROR"))
      ⊎ ((deadline ≤ now) × (exc ≡ String.◌++◌ command " timed out"))

  command_result-IsReply :
      (deadline now : ℕ) (command : String) (allow_error : Bool) (o : Outcome)
      → Agrees (judge_until "\r\nOK\r\n") o
      → IsOver deadline now o
      → IsReply command allow_error deadline now (command_result port command allow_error o)
  unfolding command_result
  command_result-IsReply deadline now command allow_error (answered text) agrees over =
      inl (judge_until-complete "\r\nOK\r\n" text agrees)
  command_result-IsReply deadline now command true (erroneous text) agrees over =
      inr (refl, judge_until-refused "\r\nOK\r\n" text agrees)
  command_result-IsReply deadline now command false (erroneous text) agrees over = inl (refl, refl)
  command_result-IsReply deadline now command allow_error (timed_out text) agrees over =
      inr (over, refl)

  -- A call of `command` comes to an end: it returns a text with the OK, or with an error if those
  -- are allowed, or raises its OSError, a timeout only when the timeout is over.
  pub run_command-ends :
      (command : String) (timeout : ℕ) (allow_error : Bool) (s : S)
      → (r : Result String) × (s' : S) × (run_command port command timeout allow_error s
          ≡ some (r, s'))
        × (now s ≤ now s')
        × IsReply command allow_error
            (now (write (String.◌++◌ command "\r\n") (drain s)) + timeout)
            (now s')
            r
  unfolding run_command
  run_command-ends command timeout allow_error s =
      let (o, s', done, agrees, over, moved) =
        await_answer-Ends (judge_until "\r\nOK\r\n") timeout
          (write (String.◌++◌ command "\r\n") (drain s)) in
      (
        command_result port command allow_error o,
        s',
        rw (run_command, done) refl,
        omega (
          arith,
          moved,
          clock.drain_keeps s,
          clock.write_keeps (String.◌++◌ command "\r\n") (drain s),
        ),
        command_result-IsReply _ _ command allow_error o agrees over,
      )

  abbrev pub HasMarker : String → Result String → Type 0
  HasMarker marker (ok text) = occurs_in marker text ≡ true
  HasMarker marker (raised exc) = Unit

  until_result-HasMarker :
      (marker : String) (o : Outcome)
      → Agrees (judge_until marker) o
      → HasMarker marker (until_result port marker o)
  unfolding until_result
  until_result-HasMarker marker (answered text) agrees = judge_until-complete marker text agrees
  until_result-HasMarker marker (erroneous text) agrees = tt
  until_result-HasMarker marker (timed_out text) agrees = tt

  -- So does `_read_until`, whose text holds the marker.
  pub read_until-ends :
      (marker : String) (timeout : ℕ) (s : S)
      → (r : Result String) × (s' : S) × (read_until port marker timeout s ≡ some (r, s'))
        × HasMarker marker r
  unfolding read_until until_result
  read_until-ends marker timeout s =
      let (o, s', done, agrees, over, moved) = await_answer-Ends (judge_until marker) timeout s in
      (
        until_result port marker o,
        s',
        rw (read_until, done) refl,
        until_result-HasMarker marker o agrees,
      )

  -- So does the wait of `test_internet`.
  pub await_ping-ends :
      (command : String) (timeout : ℕ) (s : S)
      → (text : String) × (s' : S) × (await_ping port command timeout s ≡ some (text, s'))
  unfolding await_ping
  await_ping-ends command timeout s =
      let (o, s', done, agrees, over, moved) =
        await_answer-Ends judge_ping timeout (write (String.◌++◌ command "\r\n") (drain s)) in
      (text_of port o, s', rw (await_ping, done) refl)
