-- ===== src/Text.antt =====
-- The text methods that the gateway uses, as MicroPython has them: case and white space of ASCII.
pub mod Search
pub mod Decimal
use Prim.Native.Char.{Char, code}
use Prim.Native.String.{◌∷◌, [], char_at}
use connected_vehicle_health.Prelude.{
  ℕ, zero, suc, ◌-◌, String, Bool, ◌&&◌, ◌||◌, leb, ◌==◌, if◌then◌else◌,
}

abbrev lower_letters : String
lower_letters = "abcdefghijklmnopqrstuvwxyz"

-- `str.lower` of one character.
unfoldable pub lower_char : Char → Char
lower_char c =
    if leb b'A' (code c) && leb (code c) b'Z' then char_at lower_letters (code c - b'A') else c

-- `s.lower()`
unfoldable pub lower : String → String
unfolding lower_char
lower [] = []
lower (c ∷ s) = lower_char c ∷ lower s

unfoldable pub is_space : Char → Bool
is_space c = code c == 32 || leb 9 (code c) && leb (code c) 13

unfoldable pub lstrip : String → String
unfolding is_space
lstrip [] = []
lstrip (c ∷ s) = let rest = lstrip s in if is_space c then rest else c ∷ s

-- A character in front of what is left of the rest.
unfoldable pub keep_left : Char → String → String
unfolding is_space
keep_left c [] = if is_space c then [] else c ∷ []
keep_left c (d ∷ s) = c ∷ d ∷ s

unfoldable pub rstrip : String → String
unfolding keep_left
rstrip [] = []
rstrip (c ∷ s) = keep_left c (rstrip s)

-- `s.strip()`
unfoldable pub strip : String → String
unfolding lstrip rstrip
strip s = rstrip (lstrip s)

-- `s[:n]`
unfoldable pub take_text : ℕ → String → String
take_text zero s = []
take_text (suc n) [] = []
take_text (suc n) (c ∷ s) = c ∷ take_text n s

-- The number of characters.
abbrev pub text_length : String → ℕ
text_length [] = 0
text_length (c ∷ s) = suc (text_length s)

-- `a + b`, by clauses, so that it computes at a literal `a`.
abbrev pub glue : String → String → String
glue [] b = b
glue (c ∷ a) b = c ∷ glue a b
