-- ===== src/Modem/Uart/Event/Tests.antt =====
-- A modem that reports the start of an event again and again, for the theorems on `read_mqtt_event`.
use Prim.Native.String.{char_at}
use connected_vehicle_health.Prelude.{
  ℕ, zero, suc, ◌+◌, ◌-◌, ◌*◌, ◌≡◌, ◌≤◌, ◌<◌, refl, ap, String, true, false, Option, none, some,
  List, [], ◌∷◌, ◌++◌, arith,
}
use connected_vehicle_health.Modem.Uart.{Port}
use connected_vehicle_health.Modem.Uart.Ends.{IsClock}
use connected_vehicle_health.Modem.Uart.Event.{has_start, has_end, event_loop, waiting_from}
use connected_vehicle_health.Modem.Uart.Event.Waits.{
  IsFinite, read_mqtt_event-ends, IsFlood, read_mqtt_event-starves,
}

-- The characters of ASCII from the space to the underscore.
abbrev ascii : String
ascii = " !\"#$%&'()*+,-./0123456789:;<=>?@ABCDEFGHIJKLMNOPQRSTUVWXYZ[\\]^_"

abbrev text_of_bytes : List ℕ → String
text_of_bytes [] = ""
text_of_bytes (b ∷ bs) = String.◌∷◌ (char_at ascii (b - 32)) (text_of_bytes bs)

-- "+CMQTTRXSTART:"
abbrev start_bytes : List ℕ
start_bytes = 43 ∷ 67 ∷ 77 ∷ 81 ∷ 84 ∷ 84 ∷ 82 ∷ 88 ∷ 83 ∷ 84 ∷ 65 ∷ 82 ∷ 84 ∷ 58 ∷ []

abbrev flooding : Port
flooding = record {
  S = ℕ;
  now = λ s. s;
  read = λ s. (some start_bytes, s);
  write = λ text s. s;
  drain = λ s. s;
  sleep = λ n s. s + n;
  decode = text_of_bytes;
}

-- So many starts, one after the other.
abbrev starts : ℕ → List ℕ
starts zero = []
starts (suc n) = start_bytes ++ starts n

starts_snoc : (n : ℕ) → starts n ++ start_bytes ≡ starts (suc n)
starts_snoc zero = refl
starts_snoc (suc n) = ap (λ bs. start_bytes ++ bs) (starts_snoc n)

open_starts : (n : ℕ) → has_end (text_of_bytes (starts n)) ≡ false
unfolding has_end
open_starts zero = refl
open_starts (suc n) = open_starts n

abbrev Starts : List ℕ → Type 0
Starts r = (n : ℕ) × (r ≡ starts n)

grows :
    (r : List ℕ)
    → Starts r
    → Starts (r ++ start_bytes)
      × (has_start (text_of_bytes (r ++ start_bytes)) ≡ true)
      × (has_end (text_of_bytes (r ++ start_bytes)) ≡ false)
unfolding has_start
grows r (n, at) = rw (at, starts_snoc n) ((suc n, refl), refl, open_starts (suc n))

flooding-IsFlood : IsFlood flooding Starts
flooding-IsFlood = record {
  speaks =
      λ s. (43, 67 ∷ 77 ∷ 81 ∷ 84 ∷ 84 ∷ 82 ∷ 88 ∷ 83 ∷ 84 ∷ 65 ∷ 82 ∷ 84 ∷ 58 ∷ [], refl, grows);
  prompt = λ s. omega arith;
}

read_mqtt_event-starves_example :
    event_loop flooding 1000000 (record { deadline = 200; response = []; started = false }) 0 ≡ none
read_mqtt_event-starves_example =
    read_mqtt_event-starves flooding Starts flooding-IsFlood 1000000
      (record { deadline = 200; response = []; started = false }) 0 (0, refl) (omega arith)

-- A modem that is silent.
abbrev silent : Port
silent = record {
  S = ℕ;
  now = λ s. s;
  read = λ s. (none, s);
  write = λ text s. s;
  drain = λ s. s;
  sleep = λ n s. s + n;
  decode = text_of_bytes;
}

-- A modem that has the given number of chunks to send, the start of an event in each; the state
-- is the time and the chunks that are left.
abbrev next_chunk : ℕ × ℕ → Option (List ℕ) × (ℕ × ℕ)
next_chunk (time, zero) = (none, (time, zero))
next_chunk (time, suc left) = (some start_bytes, (time, left))

abbrev chatty : Port
chatty = record {
  S = ℕ × ℕ;
  now = λ s. s.0;
  read = next_chunk;
  write = λ text s. s;
  drain = λ s. s;
  sleep = λ n s. (s.0 + n, s.1);
  decode = text_of_bytes;
}

next_chunk-now : (s : ℕ × ℕ) → s.0 ≤ (next_chunk s).1.0
next_chunk-now (time, zero) = omega arith
next_chunk-now (time, suc left) = omega arith

chatty-IsClock : IsClock chatty
chatty-IsClock = record {
  read_keeps = next_chunk-now;
  write_keeps = λ text s. omega arith;
  drain_keeps = λ s. omega arith;
  sleep_moves = λ n s. omega arith;
}

next_chunk-left : (s : ℕ × ℕ) → (next_chunk s).1.1 ≤ s.1
next_chunk-left (time, zero) = omega arith
next_chunk-left (time, suc left) = omega arith

next_chunk-spoken :
    (s : ℕ × ℕ) (b : ℕ) (bs : List ℕ) → (next_chunk s).0 ≡ some (b ∷ bs) → (next_chunk s).1.1 < s.1
next_chunk-spoken (time, zero) b bs at = absurd (ground (arith, at))
next_chunk-spoken (time, suc left) b bs at = omega arith

chatty-IsFinite : IsFinite chatty (λ s. s.1)
chatty-IsFinite = record {
  silent = next_chunk-left;
  spoken = next_chunk-spoken;
  asleep = λ s. omega arith;
}

read_mqtt_event-ends_example :
    (event : Option String) × (s' : ℕ × ℕ) × (event_loop chatty
        (suc (200 + 2 * 3001))
        (waiting_from chatty 200 (0, 2))
        (0, 2)
      ≡ some (event, s'))
read_mqtt_event-ends_example =
    read_mqtt_event-ends chatty chatty-IsClock (λ s. s.1) chatty-IsFinite 200 (0, 2)

-- Twenty passes of ten milliseconds, without an event.
nothing_read : event_loop silent 201 (waiting_from silent 200 0) 0 ≡ some (none, 200)
unfolding event_loop waiting_from
nothing_read = refl
