-- ===== src/Api/PyText.antt =====
-- `str.strip` and `str.upper` of CPython. Outside ASCII they follow tables of Unicode, which are
-- parameters.
use Prim.Native.Char.{Char, code}
use Prim.Native.String.{◌∷◌, [], ◌++◌, char_at}
use connected_vehicle_health.Prelude.{◌-◌, String, Bool, ◌&&◌, ◌||◌, leb, ltb, if◌then◌else◌}

pub record Unicode : Type 0 where
  pub upper_other : Char → String
  pub space_other : Char → Bool

abbrev upper_letters : String
upper_letters = "ABCDEFGHIJKLMNOPQRSTUVWXYZ"

module _ (u : Unicode) where
  unfoldable pub upper_char : Char → String
  upper_char c =
      if ltb (code c) 128
      then (if leb b'a' (code c) && leb (code c) b'z'
          then char_at upper_letters (code c - b'a') ∷ []
          else c ∷ [])
      else u.upper_other c

  -- `s.upper()`
  unfoldable pub upper : String → String
  unfolding upper_char
  upper [] = []
  upper (c ∷ s) = upper_char c ++ upper s

  unfoldable pub is_space : Char → Bool
  is_space c =
      if ltb (code c) 128
      then leb 9 (code c) && leb (code c) 13 || leb 28 (code c) && leb (code c) 32
      else u.space_other c

  unfoldable pub lstrip : String → String
  unfolding is_space
  lstrip [] = []
  lstrip (c ∷ s) = let rest = lstrip s in if is_space c then rest else c ∷ s

  unfoldable pub keep_left : Char → String → String
  unfolding is_space
  keep_left c [] = if is_space c then [] else c ∷ []
  keep_left c (d ∷ s) = c ∷ d ∷ s

  unfoldable pub rstrip : String → String
  unfolding keep_left
  rstrip [] = []
  rstrip (c ∷ s) = keep_left c (rstrip s)

  -- `s.strip()`
  unfoldable pub strip : String → String
  unfolding lstrip rstrip
  strip s = rstrip (lstrip s)
