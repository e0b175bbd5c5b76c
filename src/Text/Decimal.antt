-- ===== src/Text/Decimal.antt =====
-- Decimal numbers: `str(n)`, and the number that digits stand for.
use Prim.Native.Char.{Char, code}
use Prim.Native.String.{◌∷◌, [], char_at}
use connected_vehicle_health.Prelude.{
  ℕ, zero, suc, ◌+◌, ◌-◌, ◌*◌, ◌/◌, ◌%◌, ◌<◌, ◌≡◌, refl, ap, ◌∙◌, String, Bool, true, Option, none,
  some, ◌&&◌, arith, ◌==◌, leb, if◌then◌else◌, Bool-cases, inl, inr,
}

abbrev digits : String
digits = "0123456789"

unfoldable pub digit : ℕ → Char
digit d = char_at digits d

-- The digits of `n` in front of `rest`, for at most `fuel` digits.
unfoldable pub show_onto : ℕ → ℕ → String → String
unfolding digit
show_onto zero n rest = rest
show_onto (suc fuel) n rest =
    let more = show_onto fuel (n / 10) (digit (n % 10) ∷ rest) in
    if n / 10 == 0 then digit (n % 10) ∷ rest else more

-- `str(n)`
unfoldable pub show_decimal : ℕ → String
unfolding show_onto
show_decimal n = show_onto (suc n) n []

unfoldable pub is_digit : Char → Bool
is_digit c = leb b'0' (code c) && leb (code c) b'9'

-- The value of digits behind the number `n`; `none` is a ValueError.
unfoldable pub read_onto : ℕ → String → Option ℕ
unfolding is_digit
read_onto n [] = some n
read_onto n (c ∷ s) =
    let rest = read_onto (10 * n + (code c - b'0')) s in if is_digit c then rest else none

digit-code : (d : ℕ) → d < 10 → code (digit d) ≡ 48 + d
unfolding digit
digit-code zero h = refl
digit-code (suc zero) h = refl
digit-code (suc (suc zero)) h = refl
digit-code (suc (suc (suc zero))) h = refl
digit-code (suc (suc (suc (suc zero)))) h = refl
digit-code (suc (suc (suc (suc (suc zero))))) h = refl
digit-code (suc (suc (suc (suc (suc (suc zero)))))) h = refl
digit-code (suc (suc (suc (suc (suc (suc (suc zero))))))) h = refl
digit-code (suc (suc (suc (suc (suc (suc (suc (suc zero)))))))) h = refl
digit-code (suc (suc (suc (suc (suc (suc (suc (suc (suc zero))))))))) h = refl
digit-code (suc (suc (suc (suc (suc (suc (suc (suc (suc (suc d)))))))))) h = absurd (omega arith)

read_digit : (n d : ℕ) (s : String) → d < 10 → read_onto n (digit d ∷ s) ≡ read_onto (10 * n + d) s
unfolding read_onto is_digit
read_digit n d s h =
    let same : 10 * n + (code (digit d) - 48) ≡ 10 * n + d = omega (arith, digit-code d h) in
    let yes_digit : is_digit (digit d) ≡ true = ground (arith, digit-code d h) in
    rw (yes_digit, same) refl

read-show_onto :
    (fuel n : ℕ) (rest : String) → n < fuel → read_onto 0 (show_onto fuel n rest) ≡ read_onto n rest
unfolding show_onto
read-show_onto zero n rest h = absurd (omega arith)
read-show_onto (suc fuel) n rest h = elim (Bool-cases (n / 10 == 0)) [
  | inl e ↦
      let last : 10 * 0 + n % 10 ≡ n = ground arith in
      rw e (read_digit 0 (n % 10) rest (omega arith) ∙ ap (λ (k : ℕ). read_onto k rest) last)
  | inr e ↦
      let back : 10 * (n / 10) + n % 10 ≡ n = omega arith in
      rw e (
        read-show_onto fuel (n / 10) (digit (n % 10) ∷ rest) (ground arith)
        ∙ read_digit (n / 10) (n % 10) rest (omega arith)
        ∙ ap (λ (k : ℕ). read_onto k rest) back)
]

-- Every character of a text is a digit.
abbrev pub AllDigits : String → Type 0
AllDigits [] = Unit
AllDigits (c ∷ s) = (is_digit c ≡ true) × AllDigits s

digit-is_digit : (d : ℕ) → d < 10 → is_digit (digit d) ≡ true
unfolding is_digit
digit-is_digit d h = ground (arith, digit-code d h)

show_onto-AllDigits :
    (fuel n : ℕ) (rest : String) → AllDigits rest → AllDigits (show_onto fuel n rest)
unfolding show_onto
show_onto-AllDigits zero n rest a = a
show_onto-AllDigits (suc fuel) n rest a = elim (Bool-cases (n / 10 == 0)) [
  | inl e ↦ rw e (digit-is_digit (n % 10) (omega arith), a)
  | inr e ↦ rw e (
      show_onto-AllDigits fuel (n / 10) (digit (n % 10) ∷ rest)
        (digit-is_digit (n % 10) (omega arith), a))
]

pub show_decimal-AllDigits : (n : ℕ) → AllDigits (show_decimal n)
unfolding show_decimal
show_decimal-AllDigits n = show_onto-AllDigits (suc n) n [] tt

pub read-show_decimal : (n : ℕ) → read_onto 0 (show_decimal n) ≡ some n
unfolding show_decimal read_onto
read-show_decimal n = read-show_onto (suc n) n [] (omega arith)
