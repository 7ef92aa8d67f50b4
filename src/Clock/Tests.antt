-- ===== src/Clock/Tests.antt =====
-- A clock that regresses, and an instance of each theorem about it.
use httk_data.Prelude.{◌≤◌, ◌≡◌, ◌↔◌, refl, true, false, none, some, List, [], ◌∷◌, ok, arith}
use httk_data.Clock.Capture.{capture_store_timestamp, advance_store_timestamp_mark}
use httk_data.Filters.Texts.{is_prefix}
use httk_data.Filters.Decimal.{codes}
use httk_data.Clock.State.{
  text, digits, scan, parse_resolution, after_marker, parse_store_timestamp_state,
}
use httk_data.Clock.State.RoundTrip.{Written, parse_store_timestamp_state-Written}
use httk_data.Clock.Order.{
  Save, stamps, Nondecreasing, stamps-Nondecreasing, capture_store_timestamp-slept,
}

parsed_state : parse_store_timestamp_state (text (codes "v1:1000")) ≡ some (true, some 1000)
unfolding parse_store_timestamp_state after_marker parse_resolution is_prefix scan digits
parsed_state = refl

-- `int` reads this text too, but `str` does not print it.
padded_state : parse_store_timestamp_state (text (codes "v1:01000")) ≡ none
unfolding parse_store_timestamp_state after_marker parse_resolution is_prefix scan digits
padded_state = refl

parse_store_timestamp_state-Written_example :
    (parse_store_timestamp_state (text (codes "v1:1000")) ≡ some (true, some 1000))
    ↔ Written (text (codes "v1:1000")) true (some 1000)
parse_store_timestamp_state-Written_example =
    parse_store_timestamp_state-Written (text (codes "v1:1000")) true (some 1000)

-- The second save sleeps, and the third meets a clock that is a second behind.
abbrev saves : List Save
saves =
    record { first = 5000000000; second = 5000000000; commits = true }
    ∷ record { first = 4999500000; second = 5000001000; commits = true }
    ∷ record { first = 4000000000; second = 4000000000; commits = true }
    ∷ record { first = 5000002000; second = 5000002000; commits = false }
    ∷ record { first = 5000003000; second = 5000003000; commits = true }
    ∷ []

committed_stamps : stamps 1000 false true none saves ≡ 5000000 ∷ 5000001 ∷ 5000003 ∷ []
unfolding stamps capture_store_timestamp advance_store_timestamp_mark
committed_stamps = refl

stamps-Nondecreasing_example : Nondecreasing none (stamps 1000 false true none saves)
stamps-Nondecreasing_example = stamps-Nondecreasing 1000 true saves none

capture_store_timestamp-slept_example :
    (capture_store_timestamp 4999500000 5000001000 1000 (some 5000000) false true ≡ ok 5000001)
    × (5000000 ≤ 5000001)
capture_store_timestamp-slept_example =
    capture_store_timestamp-slept 4999500000 5000001000 1000 5000000 (omega arith) (omega arith)
      (omega arith) (omega arith)
