-- ===== src/Clock/State.antt =====
-- The persisted timestamp configuration: `encode_store_timestamp_state` and
-- `parse_store_timestamp_state`. A text is its code points. Of the texts that Python's `int` reads,
-- `read_int` has those of decimal digits: the code refuses any other, since `str` prints none.
pub mod RoundTrip
use httk_data.Prelude.{
  ℕ, zero, suc, ◌+◌, ◌-◌, ◌*◌, ◌/◌, ◌%◌, Bool, true, false, Option, none, some, List, [], ◌∷◌, ◌++◌,
  leb, ltb, ◌==◌, if◌then◌else◌,
}
use httk_data.Filters.Texts.{is_prefix, same_codes}
use httk_data.Filters.Decimal.{codes, is_digit}

-- `str` of a natural number, whose digits are at most `fuel`.
unfoldable pub digits : ℕ → ℕ → List ℕ
digits zero n = []
digits (suc fuel) n =
    let front = digits fuel (n / 10) in
    if ltb n 10 then (b'0' + n) ∷ [] else front ++ (b'0' + n % 10) ∷ []

abbrev pub str : ℕ → List ℕ
str n = digits (suc n) n

-- The digits of a text after those that make up `n`.
unfoldable pub scan : ℕ → List ℕ → Option ℕ
scan n [] = some n
scan n (c ∷ s) = let rest = scan (n * 10 + (c - b'0')) s in if is_digit c then rest else none

abbrev pub read_int : List ℕ → Option ℕ
read_int [] = none
read_int (c ∷ s) = scan 0 (c ∷ s)

-- A value of the store's metadata: a text, or an object of another type.
pub data StateValue : Type 0 where
  text : List ℕ → StateValue
  other : StateValue

abbrev pub marker : List ℕ
marker = codes "v1:"

abbrev pub off : List ℕ
off = codes "off"

unfoldable pub encode_store_timestamp_state : Bool → ℕ → List ℕ
encode_store_timestamp_state enabled resolution = if enabled then marker ++ str resolution else off

-- A resolution is positive and printed in one way.
abbrev pub accepted : List ℕ → Option ℕ → Option (Bool × Option ℕ)
accepted encoded none = none
accepted encoded (some zero) = none
accepted encoded (some (suc n)) =
    if same_codes (str (suc n)) encoded then some (true, some (suc n)) else none

-- What follows the marker.
unfoldable pub parse_resolution : List ℕ → Option (Bool × Option ℕ)
parse_resolution encoded = accepted encoded (read_int encoded)

unfoldable pub after_marker : List ℕ → Option (Bool × Option ℕ)
after_marker (a ∷ b ∷ c ∷ encoded) =
    if is_prefix marker (a ∷ b ∷ c ∷ encoded) then parse_resolution encoded else none
after_marker _ = none

unfoldable pub parse_store_timestamp_state : StateValue → Option (Bool × Option ℕ)
parse_store_timestamp_state (text value) =
    if same_codes value off then some (false, none) else after_marker value
parse_store_timestamp_state other = none
