-- ===== src/Filters/Decimal.antt =====
-- `decimal.Decimal` as `format_value` uses it: the integer that the lexeme of a Number stands for,
-- when it stands for one. Lexemes follow the OPTIMADE grammar: an optional sign, digits with an
-- optional point, and an optional exponent. Text is its code points.
use Prim.Native.Nat.{◌^◌}
use Prim.Native.Char.{code}
use httk_data.Prelude.{
  ℕ, zero, suc, ◌+◌, ◌-◌, ◌*◌, ◌/◌, ◌%◌, ℤ, of_sign, Bool, true, false, ◌&&◌, ◌||◌, String, Option,
  none, some, List, [], ◌∷◌, leb, ◌==◌, if◌then◌else◌,
}

abbrev pub codes : String → List ℕ
codes String.[] = []
codes (String.◌∷◌ c s) = code c ∷ codes s

abbrev pub is_digit : ℕ → Bool
is_digit c = leb b'0' c && leb c b'9'

-- The digits read so far as a number, their count, and the rest.
abbrev pub Digits : Type 0
Digits = ℕ × ℕ × List ℕ

read_digits : ℕ → ℕ → List ℕ → Digits
read_digits n k [] = (n, k, [])
read_digits n k (c ∷ s) =
    let more = read_digits (n * 10 + (c - b'0')) (k + 1) s in
    if is_digit c then more else (n, k, c ∷ s)

-- A sign, and whether it is a minus.
abbrev pub read_sign : List ℕ → Bool × List ℕ
read_sign [] = (false, [])
read_sign (c ∷ s) =
    if c == b'-' then (true, s) else if c == b'+' then (false, s) else (false, c ∷ s)

-- `e` or `E`, a sign and at least one digit.
abbrev exponent_digits : Bool → Digits → Option (Bool × ℕ)
exponent_digits negative (n, zero, s) = none
exponent_digits negative (n, suc k, []) = some (negative, n)
exponent_digits negative (n, suc k, c ∷ s) = none

read_exponent : List ℕ → Option (Bool × ℕ)
unfolding read_digits
read_exponent [] = some (false, 0)
read_exponent (c ∷ s) =
    let (negative, s') = read_sign s in
    if c == b'e' || c == b'E' then exponent_digits negative (read_digits 0 0 s') else none

-- n * 10 ^ (e - f), if it is an integer.
abbrev pub scaled : Bool → ℕ → ℕ → Bool → ℕ → Option ℤ
scaled negative n f true e =
    if n % 10 ^ (e + f) == 0 then some (of_sign negative (n / 10 ^ (e + f))) else none
scaled negative n f false e =
    if leb f e
    then some (of_sign negative (n * 10 ^ (e - f)))
    else if n % 10 ^ (f - e) == 0
    then some (of_sign negative (n / 10 ^ (f - e)))
    else none

abbrev with_exponent : Bool → ℕ → ℕ → Option (Bool × ℕ) → Option ℤ
with_exponent negative n f none = none
with_exponent negative n f (some (down, e)) = scaled negative n f down e

-- After the point: at least one digit in all.
abbrev with_fraction : Bool → ℕ → Digits → Option ℤ
with_fraction negative whole (n, k, s) =
    if whole + k == 0 then none else with_exponent negative n k (read_exponent s)

abbrev with_whole : Bool → Digits → Option ℤ
with_whole negative (n, k, []) = if k == 0 then none else some (of_sign negative n)
with_whole negative (n, k, c ∷ s) =
    if c == b'.'
    then with_fraction negative k (read_digits n 0 s)
    else if k == 0
    then none
    else with_exponent negative n 0 (read_exponent (c ∷ s))

unfoldable pub integral_of : String → Option ℤ
unfolding read_digits read_exponent
integral_of lexeme =
    let (negative, s) = read_sign (codes lexeme) in with_whole negative (read_digits 0 0 s)
