-- ===== src/Api/Dtc.antt =====
-- `_valid_dtc_codes` of lambda_function.py: the diagnostic trouble codes that are worth a warning.
pub mod Clean
use Prim.Native.Char.{Char, code}
use Prim.Native.String
use connected_vehicle_health.Prelude.{
  ℕ, String, Bool, true, false, not, ◌&&◌, ◌||◌, Option, none, some, List, [], ◌∷◌, ◌++◌, leb, ◌==◌,
  str_eq, if◌then◌else◌,
}
use connected_vehicle_health.Json.{Value, Items, arr, nil, cons, py_str}
use connected_vehicle_health.Api.PyText.{Unicode, strip, upper}

-- The three character classes of `_DTC_PATTERN`.
unfoldable pub is_system : Char → Bool
is_system c = code c == b'P' || code c == b'B' || code c == b'C' || code c == b'U'

unfoldable pub is_0_to_3 : Char → Bool
is_0_to_3 c = leb b'0' (code c) && leb (code c) b'3'

unfoldable pub is_hex : Char → Bool
is_hex c = leb b'0' (code c) && leb (code c) b'9' || leb b'A' (code c) && leb (code c) b'F'

-- `_DTC_PATTERN.match(code)`. A line feed at the end, which `$` would allow, has been stripped.
unfoldable pub matches_pattern : String → Bool
unfolding is_system is_0_to_3 is_hex
matches_pattern
      (String.◌∷◌ a (String.◌∷◌ b (String.◌∷◌ c (String.◌∷◌ d (String.◌∷◌ e String.[]))))) =
    is_system a && is_0_to_3 b && is_hex c && is_hex d && is_hex e
matches_pattern s = false

-- `code.endswith("FFF")`
unfoldable pub ends_fff : String → Bool
ends_fff String.[] = false
ends_fff (String.◌∷◌ c s) = let rest = ends_fff s in str_eq (String.◌∷◌ c s) "FFF" || rest

-- The tests of a code, but for the last.
unfoldable pub is_code : String → Bool
unfolding matches_pattern ends_fff
is_code code =
    matches_pattern code && not (str_eq code "P0000" || str_eq code "P00FF") && not (ends_fff code)

-- `code in result`
unfoldable pub contains : String → List String → Bool
contains code [] = false
contains code (x ∷ xs) = str_eq x code || contains code xs

module _ {N : Type 0} (render : Value N → String) (u : Unicode) where
  -- `str(raw_code).strip().upper()`
  unfoldable pub normal : Value N → String
  normal raw_code = upper u (strip u (py_str render raw_code))

  -- The loop, from the codes found so far.
  unfoldable pub collect : List String → Items N → List String
  unfolding is_code contains normal
  collect result nil = result
  collect result (cons raw_code rest) =
      let code = normal raw_code in
      collect (if is_code code && not (contains code result) then result ++ code ∷ [] else result)
        rest

  -- `_valid_dtc_codes`, where a key that is missing gives `None`
  unfoldable pub valid_dtc_codes : Option (Value N) → List String
  unfolding collect
  valid_dtc_codes (some (arr items)) = collect [] items
  valid_dtc_codes _ = []
