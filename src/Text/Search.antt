-- ===== src/Text/Search.antt =====
-- Searching and splitting texts, as `str` does it in both Pythons.
use Prim.Native.Char.{Char, code}
use Prim.Native.String.{◌∷◌, []}
use connected_vehicle_health.Prelude.{
  String, Bool, true, false, ◌&&◌, ◌||◌, Option, none, some, List, ◌==◌, str_eq, if◌then◌else◌,
}

-- `text.startswith(prefix)`
unfoldable pub starts_with : String → String → Bool
starts_with [] s = true
starts_with (c ∷ p) [] = false
starts_with (c ∷ p) (d ∷ s) = code c == code d && starts_with p s

-- `text.endswith(ending)`
unfoldable pub ends_with : String → String → Bool
ends_with p [] = str_eq p []
ends_with p (c ∷ s) = str_eq p (c ∷ s) || ends_with p s

-- `part in text`
unfoldable pub occurs_in : String → String → Bool
unfolding starts_with
occurs_in p [] = starts_with p []
occurs_in p (c ∷ s) = starts_with p (c ∷ s) || occurs_in p s

-- `text[text.find(marker):]`, and `none` where `find` gives -1.
unfoldable pub from_marker : String → String → Option String
unfolding starts_with
from_marker m [] = if starts_with m [] then some [] else none
from_marker m (c ∷ s) =
    let rest = from_marker m s in if starts_with m (c ∷ s) then some (c ∷ s) else rest

-- A character in front of the first part.
unfoldable pub grow : Char → Option (String × String) → Option (String × String)
grow c none = none
grow c (some (before, after)) = some (c ∷ before, after)

-- `text.split(at, 1)`, and `none` where it has one part.
unfoldable pub cut : Char → String → Option (String × String)
unfolding grow
cut at [] = none
cut at (c ∷ s) = let rest = cut at s in if code c == code at then some ([], s) else grow c rest

-- `text.rsplit(at, 1)[1]`, and `none` for its IndexError.
unfoldable pub after_last : Char → String → Option String
after_last at [] = none
after_last at (c ∷ s) = elim (after_last at s) [
  | some found ↦ some found
  | none ↦ if code c == code at then some s else none
]

-- A character in front of the first of some parts.
unfoldable pub onto_first : Char → List String → List String
onto_first c List.[] = List.◌∷◌ (c ∷ []) List.[]
onto_first c (List.◌∷◌ part parts) = List.◌∷◌ (c ∷ part) parts

-- `text.split(at)`
unfoldable pub split_on : Char → String → List String
unfolding onto_first
split_on at [] = List.◌∷◌ [] List.[]
split_on at (c ∷ s) =
    let rest = split_on at s in if code c == code at then List.◌∷◌ [] rest else onto_first c rest

-- `text.replace(gone, "")`
unfoldable pub without : Char → String → String
without gone [] = []
without gone (c ∷ s) = let rest = without gone s in if code c == code gone then rest else c ∷ rest
