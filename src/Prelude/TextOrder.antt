-- ===== src/Prelude/TextOrder.antt =====
-- Python's order of texts, `s < t`.
use Prim.Native.Nat.{ℕ, Ordering}
use Prim.Native.Char.{Char, code}
use Prim.Native.String.{String, compare}
use Prim.Native.String.compare.{nil-cons, cons-nil, cons-cons}
use mathlib.Core.Path.{◌≡◌, refl}
use mathlib.Core.Bool.{Bool, true, false}
use native.Mathlib.Omega.{arith}
use text.Mathlib.TextPositions.{compare_refl}
use connected_vehicle_health.Prelude.Tests.{ltb, ◌==◌, if◌then◌else◌}

abbrev pub text_lt : String → String → Bool
text_lt s t = elim (compare s t) [ Ordering.lt ↦ true | _ ↦ false ]

text_lt-nil : (s : String) → text_lt s String.[] ≡ false
text_lt-nil String.[] = refl
text_lt-nil (String.◌∷◌ c s) = rw (cons-nil c s, text_lt)

text_lt-nil-cons : (d : Char) (t : String) → text_lt String.[] (String.◌∷◌ d t) ≡ true
text_lt-nil-cons d t = rw (nil-cons d t, text_lt)

text_lt-cons :
    (c d : Char) (s t : String)
    → text_lt (String.◌∷◌ c s) (String.◌∷◌ d t)
      ≡ (if ltb (code c) (code d) then true else if code c == code d then text_lt s t else false)
text_lt-cons c d s t = rw (cons-cons c d s t, text_lt) (ground arith)

-- One place of the comparison, given the transitivity of the rest.
step :
    (c d e : ℕ) (st tu su : Bool)
    → (st ≡ true → tu ≡ true → su ≡ true)
    → (if ltb c d then true else if c == d then st else false) ≡ true
    → (if ltb d e then true else if d == e then tu else false) ≡ true
    → (if ltb c e then true else if c == e then su else false) ≡ true
step c d e st tu su ih h k = grind arith

pub text_lt_trans : (s t u : String) → text_lt s t ≡ true → text_lt t u ≡ true → text_lt s u ≡ true
text_lt_trans s t String.[] h k = cc (text_lt-nil t)
text_lt_trans s String.[] (String.◌∷◌ e u) h k = cc (text_lt-nil s)
text_lt_trans String.[] (String.◌∷◌ d t) (String.◌∷◌ e u) h k = text_lt-nil-cons e u
text_lt_trans (String.◌∷◌ c s) (String.◌∷◌ d t) (String.◌∷◌ e u) h k = rw text_lt-cons (
    step (code c) (code d) (code e) (text_lt s t) (text_lt t u) (text_lt s u) (text_lt_trans s t u)
      (rw text_lt-cons at h) (rw text_lt-cons at k))

-- The same place, for a text that is not below the third.
step_not :
    (c d e : ℕ) (st tu su : Bool)
    → (su ≡ true → tu ≡ false → st ≡ true)
    → (if ltb c e then true else if c == e then su else false) ≡ true
    → (if ltb d e then true else if d == e then tu else false) ≡ false
    → (if ltb c d then true else if c == d then st else false) ≡ true
step_not c d e st tu su ih h k = grind arith

-- The order is total: a text below another is below every text that is not.
pub text_lt_of_not :
    (s t u : String) → text_lt s u ≡ true → text_lt t u ≡ false → text_lt s t ≡ true
text_lt_of_not s t String.[] h k = cc (text_lt-nil s)
text_lt_of_not s String.[] (String.◌∷◌ e u) h k = cc (text_lt-nil-cons e u)
text_lt_of_not String.[] (String.◌∷◌ d t) (String.◌∷◌ e u) h k = text_lt-nil-cons d t
text_lt_of_not (String.◌∷◌ c s) (String.◌∷◌ d t) (String.◌∷◌ e u) h k = rw text_lt-cons (
    step_not (code c) (code d) (code e) (text_lt s t) (text_lt t u) (text_lt s u)
      (text_lt_of_not s t u) (rw text_lt-cons at h) (rw text_lt-cons at k))

pub text_lt_irrefl : (s : String) → text_lt s s ≡ false
text_lt_irrefl s = rw (compare_refl s, text_lt)
