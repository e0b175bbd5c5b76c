-- ===== src/Mqtt/Events/Printed.antt =====
-- The event that the modem prints for a received message is parsed back.
use Prim.Native.Char.{Char, code}
use Prim.Native.String.{◌∷◌, []}
use connected_vehicle_health.Prelude.{
  ℕ, ◌≡◌, refl, sym, ap, ap₂, ◌∙◌, String, true, false, Option, none, some, arith, ◌==◌, Bool-cases,
  inl, inr,
}
use connected_vehicle_health.Prelude.Int.{ℤ, pos}
use connected_vehicle_health.Text.{take_text, text_length, glue}
use connected_vehicle_health.Text.Search.{starts_with, from_marker, grow, cut, after_last, without}
use connected_vehicle_health.Mqtt.Events.{slice_length, value_of, event_value, parse_event}

-- The character does not occur in the text.
abbrev pub Lacks : Char → String → Type 0
Lacks x [] = Unit
Lacks x (c ∷ s) = (code c == code x ≡ false) × Lacks x s

code_refl : (x : Char) → (code x == code x) ≡ true
code_refl x = ground arith

without-glue : (x : Char) (a b : String) → without x (glue a b) ≡ glue (without x a) (without x b)
unfolding without
without-glue x [] b = refl
without-glue x (c ∷ a) b = elim (Bool-cases (code c == code x)) [
  | inl h ↦ rw h (without-glue x a b)
  | inr h ↦ rw h (ap (◌∷◌ c) (without-glue x a b))
]

without-Lacks : (x : Char) (a : String) → Lacks x a → without x a ≡ a
unfolding without
without-Lacks x [] l = refl
without-Lacks x (c ∷ a) (n, l) = rw n (ap (◌∷◌ c) (without-Lacks x a l))

-- A marker that starts with `x` is not found in a text without `x`.
from_marker-skip :
    (x : Char) (m a b : String) → Lacks x a → from_marker (x ∷ m) (glue a b) ≡ from_marker (x ∷ m) b
unfolding from_marker starts_with
from_marker-skip x m [] b l = refl
from_marker-skip x m (c ∷ a) b (n, l) =
    let ne : (code x == code c) ≡ false = ground arith in rw ne (from_marker-skip x m a b l)

cut-glue : (x : Char) (a b : String) → Lacks x a → cut x (glue a (x ∷ b)) ≡ some (a, b)
unfolding cut grow
cut-glue x [] b l = rw (code_refl x) refl
cut-glue x (c ∷ a) b (n, l) = rw (n, cut-glue x a b l) refl

after_last-none : (x : Char) (a : String) → Lacks x a → after_last x a ≡ none
unfolding after_last
after_last-none x [] l = refl
after_last-none x (c ∷ a) (n, l) = rw (after_last-none x a l, n) refl

after_last-glue : (x : Char) (a b : String) → Lacks x b → after_last x (glue a (x ∷ b)) ≡ some b
unfolding after_last
after_last-glue x [] b l = rw (after_last-none x b l, code_refl x) refl
after_last-glue x (c ∷ a) b l = rw (after_last-glue x a b l) refl

take_text-glue : (a b : String) → take_text (text_length a) (glue a b) ≡ a
unfolding take_text
take_text-glue [] b = refl
take_text-glue (c ∷ a) b = ap (◌∷◌ c) (take_text-glue a b)

Lacks-glue : (x : Char) (a b : String) → Lacks x a → Lacks x b → Lacks x (glue a b)
Lacks-glue x [] b l k = k
Lacks-glue x (c ∷ a) b (n, l) k = (n, Lacks-glue x a b l k)

glue_assoc : (a b c : String) → glue (glue a b) c ≡ glue a (glue b c)
glue_assoc [] b c = refl
glue_assoc (x ∷ a) b c = ap (◌∷◌ x) (glue_assoc a b c)

-- How numbers are printed: no sign, separator or line end, and `int` reads the number back.
pub record IsPrinter (int_of : String → Option ℤ) (show : ℕ → String) : Type 0 where
  pub no_plus : (n : ℕ) → Lacks "+" (show n)
  pub no_comma : (n : ℕ) → Lacks "," (show n)
  pub no_return : (n : ℕ) → Lacks "\r" (show n)
  pub no_newline : (n : ℕ) → Lacks "\n" (show n)
  pub read_back : (n : ℕ) → int_of (show n) ≡ some (pos n)

module _ (int_of : String → Option ℤ) (show : ℕ → String) where
  -- What the modem prints, with `eol` at the end of each line.
  abbrev pub payload_text : String → String → String
  payload_text eol payload = glue eol (
      glue "+CMQTTRXPAYLOAD: 0,"
        (glue (show (text_length payload)) (glue eol (glue payload (glue eol "+CMQTTRXEND: 0")))))

  abbrev pub event_text : String → String → String → String
  event_text eol topic payload = glue eol (
      glue "+CMQTTRXSTART: 0," (
        glue (show (text_length topic)) (
          glue "," (
            glue (show (text_length payload)) (
              glue eol (
                glue "+CMQTTRXTOPIC: 0," (
                  glue (show (text_length topic))
                    (glue eol (glue topic (payload_text eol payload))))))))))

  module _ (p : IsPrinter int_of show) where
    event_value-found :
        (text marker name value rest : String)
        → Lacks "\n" name
        → from_marker marker text
          ≡ some (glue name ("," ∷ glue (show (text_length value)) ("\n" ∷ glue value rest)))
        → event_value int_of text marker ≡ some value
    unfolding event_value value_of slice_length
    event_value-found text marker name value rest clean found =
        let n = text_length value in
        let line = glue name ("," ∷ show n) in
        let split : cut "\n" (glue name ("," ∷ glue (show n) ("\n" ∷ glue value rest)))
            ≡ some (line, glue value rest) =
          ap (cut "\n") (sym (glue_assoc name ("," ∷ show n) ("\n" ∷ glue value rest)))
          ∙ cut-glue "\n" line (glue value rest)
              (Lacks-glue "\n" name ("," ∷ show n) clean (refl, p.no_newline n)) in
        rw
          (
            event_value,
            found,
            split,
            value_of,
            after_last-glue "," name (show n) (p.no_comma n),
            p.read_back n,
            take_text-glue value rest,
          )
          refl

    without_returns :
        (topic payload : String)
        → Lacks "\r" topic
        → Lacks "\r" payload
        → without "\r" (event_text "\r\n" topic payload) ≡ event_text "\n" topic payload
    unfolding without
    without_returns topic payload t l = simp (
      without-glue,
      without-Lacks "\r" topic t,
      without-Lacks "\r" payload l,
      without-Lacks "\r" (show (text_length topic)) (p.no_return (text_length topic)),
      without-Lacks "\r" (show (text_length payload)) (p.no_return (text_length payload)),
    )

    topic-found :
        (topic payload : String)
        → from_marker "+CMQTTRXTOPIC:" (event_text "\n" topic payload)
          ≡ some (
              glue "+CMQTTRXTOPIC: 0" (
                ","
                ∷ glue (show (text_length topic)) ("\n" ∷ glue topic (payload_text "\n" payload))))
    unfolding from_marker starts_with
    topic-found topic payload =
        from_marker-skip "+" "CMQTTRXTOPIC:" (show (text_length topic)) _
          (p.no_plus (text_length topic))
        ∙ from_marker-skip "+" "CMQTTRXTOPIC:" (show (text_length payload)) _
            (p.no_plus (text_length payload))

    payload-found :
        (topic payload : String)
        → Lacks "+" topic
        → from_marker "+CMQTTRXPAYLOAD:" (event_text "\n" topic payload)
          ≡ some (
              glue "+CMQTTRXPAYLOAD: 0"
                ("," ∷ glue (show (text_length payload)) ("\n" ∷ glue payload "\n+CMQTTRXEND: 0")))
    unfolding from_marker starts_with
    payload-found topic payload l =
        from_marker-skip "+" "CMQTTRXPAYLOAD:" (show (text_length topic)) _
          (p.no_plus (text_length topic))
        ∙ from_marker-skip "+" "CMQTTRXPAYLOAD:" (show (text_length payload)) _
            (p.no_plus (text_length payload))
        ∙ from_marker-skip "+" "CMQTTRXPAYLOAD:" (show (text_length topic)) _
            (p.no_plus (text_length topic))
        ∙ from_marker-skip "+" "CMQTTRXPAYLOAD:" topic _ l

    -- `_parse_event` gives back the topic and the payload of the event that the modem prints, whatever
    -- lines, commas and markers the payload has, if neither holds a carriage return and the topic no
    -- plus sign, and the printed lengths are those in characters.
    pub parse_event-event_text :
        (topic payload : String)
        → Lacks "+" topic
        → Lacks "\r" topic
        → Lacks "\r" payload
        → parse_event int_of (event_text "\r\n" topic payload) ≡ (some topic, some payload)
    unfolding parse_event
    parse_event-event_text topic payload plus t l = rw (without_returns topic payload t l) (
        ap₂ (λ a b. (a, b))
          (event_value-found (event_text "\n" topic payload) "+CMQTTRXTOPIC:" "+CMQTTRXTOPIC: 0"
            topic _ (ground arith) (topic-found topic payload))
          (event_value-found (event_text "\n" topic payload) "+CMQTTRXPAYLOAD:" "+CMQTTRXPAYLOAD: 0"
            payload _ (ground arith) (payload-found topic payload plus)))
