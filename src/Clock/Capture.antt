-- ===== src/Clock/Capture.antt =====
-- `capture_store_timestamp` and `advance_store_timestamp_mark`. Clocks count nanoseconds from the
-- epoch; a mark and a timestamp count units of `resolution` nanoseconds.
use httk_data.Prelude.{
  ℕ, ◌+◌, ◌-◌, ◌*◌, ◌/◌, max, Bool, true, false, ◌&&◌, Option, none, some, ltb, if◌then◌else◌,
  Result, ok, err,
}

-- `StoreClockRegressionError`, with the mark and the clock in nanoseconds.
pub record StoreClockRegressionError : Type 0 where
  pub mark_ns : ℕ
  pub clock_ns : ℕ

abbrev pub clock_regression_grace_ns : ℕ
clock_regression_grace_ns = 1000000

-- What `time.sleep` is asked for, in nanoseconds.
abbrev pub sleep_ns : ℕ → ℕ
sleep_ns deficit = deficit + 1000

abbrev pub deficit_ns : ℕ → ℕ → ℕ → ℕ
deficit_ns resolution mark clock = mark * resolution - clock

-- `first` is the clock's first reading, and `second` the one after the sleep.
abbrev pub guarded : ℕ → ℕ → ℕ → Result StoreClockRegressionError ℕ
guarded resolution mark clock =
    if ltb (clock / resolution) mark
    then err (record { mark_ns = mark * resolution; clock_ns = clock })
    else ok (clock / resolution)

abbrev pub sleeps : Bool → ℕ → ℕ → ℕ → Bool
sleeps grace resolution mark first =
    ltb (first / resolution) mark
    && (grace && ltb (deficit_ns resolution mark first) clock_regression_grace_ns)

unfoldable pub capture_store_timestamp :
    ℕ → ℕ → ℕ → Option ℕ → Bool → Bool → Result StoreClockRegressionError ℕ
capture_store_timestamp first second resolution mark true grace = ok (first / resolution)
capture_store_timestamp first second resolution none false grace = ok (first / resolution)
capture_store_timestamp first second resolution (some mark) false grace =
    guarded resolution mark (if sleeps grace resolution mark first then second else first)

unfoldable pub advance_store_timestamp_mark : Option ℕ → Option ℕ → Bool → Option ℕ
advance_store_timestamp_mark mark none allowed = mark
advance_store_timestamp_mark mark (some captured) true = mark
advance_store_timestamp_mark none (some captured) false = some captured
advance_store_timestamp_mark (some mark) (some captured) false = some (max mark captured)
