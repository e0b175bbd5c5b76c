-- ===== src/Mqtt/Topic/Safe.antt =====
-- What `_safe` and `_topic` of mqtt_manager.py let through to the broker.
use Prim.Native.Char.{Char, code}
use Prim.Native.String.{◌∷◌, []}
use text.Mathlib.TextLemmas.{cons-append, head-eq_of_cons-eq}
use connected_vehicle_health.Prelude.{
  ℕ, zero, suc, ◌≤◌, ◌<◌, ◌≡◌, ◌≢◌, refl, ap, sym, ◌∙◌, String, true, arith, Bool-cases, inl, inr,
  if◌then◌else◌,
}
use connected_vehicle_health.Config.{mqtt_response_topic}
use connected_vehicle_health.Json.{Value, Fields, py_str}
use connected_vehicle_health.Text.{lower, lower_char, strip, take_text, text_length}
use connected_vehicle_health.Mqtt.Topic.{
  Kind, event, response, diagnostic, fast, slow, classify, suffix, is_valid, replace_invalid,
  or_unknown, message_type_of, data_class_of, message_kind, safe, topic,
}

-- Every character is a digit, a small letter or a dash.
abbrev pub AllValid : String → Type 0
AllValid [] = Unit
AllValid (c ∷ s) = (is_valid c ≡ true) × AllValid s

valid_or_dash : (c : Char) → is_valid (if is_valid c then c else "-") ≡ true
valid_or_dash c = elim (Bool-cases (is_valid c)) [
  | inl h ↦ rw h h
  | inr h ↦ rw h (unfold is_valid in refl)
]

replaced-AllValid : (s : String) → AllValid (replace_invalid s)
unfolding replace_invalid
replaced-AllValid [] = tt
replaced-AllValid (c ∷ s) = (valid_or_dash c, replaced-AllValid s)

take-AllValid : (n : ℕ) (s : String) → AllValid s → AllValid (take_text n s)
unfolding take_text
take-AllValid zero s v = tt
take-AllValid (suc n) [] v = tt
take-AllValid (suc n) (c ∷ s) v = (v.0, take-AllValid n s v.1)

length-take_text-le : (n : ℕ) (s : String) → text_length (take_text n s) ≤ n
unfolding take_text
length-take_text-le zero s = omega arith
length-take_text-le (suc n) [] = omega arith
length-take_text-le (suc n) (c ∷ s) = omega (arith, length-take_text-le n s)

or_unknown_lem :
    (s : String)
    → AllValid s
    → text_length s ≤ 40
    → AllValid (or_unknown s) × (0 < text_length (or_unknown s)) × (text_length (or_unknown s) ≤ 40)
unfolding or_unknown is_valid
or_unknown_lem [] v h =
    ((refl, (refl, (refl, (refl, (refl, (refl, (refl, tt))))))), omega arith, omega arith)
or_unknown_lem (c ∷ s) v h = (v, omega arith, h)

classify-ne-response :
    (message_type data_class : String) → classify message_type data_class ≢ response
unfolding classify
classify-ne-response message_type data_class = ground arith

-- The suffix of a message's kind.
abbrev pub suffix_of_kind : Kind → String
suffix_of_kind event = "event"
suffix_of_kind diagnostic = "diagnostic"
suffix_of_kind fast = "telemetry/fast"
suffix_of_kind slow = "telemetry/slow"
suffix_of_kind _ = "telemetry"

pub suffix-classify :
    (message_type data_class : String)
    → suffix message_type data_class ≡ suffix_of_kind (classify message_type data_class)
unfolding suffix classify
suffix-classify message_type data_class = ground arith

-- The text of at most `n` characters in which each one is that of `s` in lower case, or a dash
-- where that is not valid.
abbrev pub Dashed : ℕ → String → String → Type 0
Dashed zero s [] = Unit
Dashed (suc n) [] [] = Unit
Dashed (suc n) (c ∷ s) (d ∷ t) =
    (d ≡ (if is_valid (lower_char c) then lower_char c else "-")) × Dashed n s t
Dashed _ _ _ = ⊥

dashed : (n : ℕ) (s : String) → Dashed n s (take_text n (replace_invalid (lower s)))
unfolding take_text replace_invalid lower
dashed zero s = tt
dashed (suc n) [] = tt
dashed (suc n) (c ∷ s) = (refl, dashed n s)

-- What becomes of a field's text without the white space around it: its first 40 characters, or
-- "unknown" if it is empty.
abbrev pub IsCleaned : String → String → Type 0
IsCleaned [] part = part ≡ "unknown"
IsCleaned (c ∷ s) part = Dashed 40 (c ∷ s) part

cleaned : (s : String) → IsCleaned s (or_unknown (take_text 40 (replace_invalid (lower s))))
unfolding or_unknown take_text replace_invalid lower
cleaned [] = refl
cleaned (c ∷ s) = (refl, dashed 39 s)

module _ {N : Type 0} (render : Value N → String) where
  -- Whatever a client sends, each part that `_safe` puts into a topic has 1 to 40 characters, all
  -- of them digits, small letters or dashes: no level separator and no wildcard.
  pub safe_lem :
      (value : Value N)
      → AllValid (safe render value)
        × (0 < text_length (safe render value))
        × (text_length (safe render value) ≤ 40)
  unfolding safe
  safe_lem value =
      let s = replace_invalid (lower (strip (py_str render value))) in
      or_unknown_lem (take_text 40 s) (take-AllValid 40 s (replaced-AllValid _))
        (length-take_text-le 40 s)

  pub safe-IsCleaned :
      (value : Value N) → IsCleaned (strip (py_str render value)) (safe render value)
  unfolding safe
  safe-IsCleaned value = cleaned (strip (py_str render value))

  -- `enqueue` never queues a message as a command response.
  pub message_kind-ne-response : (parsed : Fields N) → message_kind render parsed ≢ response
  unfolding message_kind
  message_kind-ne-response parsed =
      classify-ne-response (message_type_of render parsed) (data_class_of render parsed)

  -- A topic of `enqueue` is never the topic of the command responses.
  pub topic-ne-response_topic : (parsed : Fields N) → topic render parsed ≢ mqtt_response_topic
  unfolding topic
  topic-ne-response_topic parsed e =
      let heads = head-eq_of_cons-eq (sym (cons-append "d" "t/iiot-lab/factory1" _) ∙ e) in
      omega (arith, ap code heads)
