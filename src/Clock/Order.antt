-- ===== src/Clock/Order.antt =====
-- The timestamps of a store never go back.
use httk_data.Prelude.{
  ℕ, ◌+◌, ◌*◌, ◌/◌, ◌≤◌, ◌<◌, ◌≡◌, refl, ap, subst, ◌∙◌, Bool, true, false, Option, none, some,
  List, [], ◌∷◌, ltb, if◌then◌else◌, Result, ok, err, arith, lt→ltb, Bool-cases, inl, inr,
}
use native.Mathlib.Nat.{le-div_iff_mul-le}
use httk_data.Clock.Capture.{
  StoreClockRegressionError, guarded, sleep_ns, deficit_ns, clock_regression_grace_ns,
  capture_store_timestamp, advance_store_timestamp_mark,
}

-- A save: the readings of the clock, and whether its transaction then commits.
pub record Save : Type 0 where
  pub first : ℕ
  pub second : ℕ
  pub commits : Bool

abbrev with_stamp : Option ℕ → List ℕ → List ℕ
with_stamp none later = later
with_stamp (some captured) later = captured ∷ later

module _ (resolution : ℕ) (allowed grace : Bool) where
  -- The timestamp that a save commits, if any.
  abbrev pub committed : Save → Result StoreClockRegressionError ℕ → Option ℕ
  committed save (err e) = none
  committed save (ok captured) = if save.commits then some captured else none

  -- The mark of the store after a save.
  abbrev pub saved : Option ℕ → Save → Option ℕ
  saved mark save =
      let stamp =
        committed save
          (capture_store_timestamp save.first save.second resolution mark allowed grace) in
      advance_store_timestamp_mark mark stamp allowed

  -- The committed timestamps of a sequence of saves.
  unfoldable pub stamps : Option ℕ → List Save → List ℕ
  stamps mark [] = []
  stamps mark (save ∷ rest) =
      let later = stamps (saved mark save) rest in
      with_stamp
        (committed save
          (capture_store_timestamp save.first save.second resolution mark allowed grace))
        later

-- A mark that a timestamp does not go behind.
abbrev pub Behind : Option ℕ → ℕ → Type 0
Behind none n = Unit
Behind (some mark) n = mark ≤ n

-- Each value is at least the mark and the values before it.
pub data Nondecreasing : Option ℕ → List ℕ → Type 0 where
  ends : {m : Option ℕ} → Nondecreasing m []
  goes :
      {m : Option ℕ} (n : ℕ) (ns : List ℕ)
      → Behind m n
      → Nondecreasing (some n) ns
      → Nondecreasing m (n ∷ ns)

guarded-Behind : (resolution mark clock n : ℕ) → guarded resolution mark clock ≡ ok n → mark ≤ n
guarded-Behind resolution mark clock n h = ground arith

capture_store_timestamp-Behind :
    (first second resolution : ℕ) (mark : Option ℕ) (grace : Bool) (n : ℕ)
    → capture_store_timestamp first second resolution mark false grace ≡ ok n
    → Behind mark n
unfolding capture_store_timestamp
capture_store_timestamp-Behind first second resolution none grace n h = tt
capture_store_timestamp-Behind first second resolution (some mark) grace n h =
    guarded-Behind resolution mark _ n h

committed-Behind :
    (resolution : ℕ) (grace : Bool) (mark : Option ℕ) (save : Save)
    (r : Result StoreClockRegressionError ℕ) (n : ℕ)
    → capture_store_timestamp save.first save.second resolution mark false grace ≡ r
    → committed resolution false grace save r ≡ some n
    → Behind mark n
committed-Behind resolution grace mark save (err e) n c h = cc
committed-Behind resolution grace mark save (ok m) n c h = elim (Bool-cases save.commits) [
  | inl commits ↦
      let e : m ≡ n = cc in
      capture_store_timestamp-Behind save.first save.second resolution mark grace n (c ∙ ap ok e)
  | inr aborts ↦ cc
]

advanced :
    (mark : Option ℕ) (n : ℕ)
    → Behind mark n
    → advance_store_timestamp_mark mark (some n) false ≡ some n
unfolding advance_store_timestamp_mark
advanced none n h = refl
advanced (some mark) n h = ap some (omega arith)

kept : (mark : Option ℕ) → advance_store_timestamp_mark mark none false ≡ mark
unfolding advance_store_timestamp_mark
kept none = refl
kept (some mark) = refl

onward :
    (mark o : Option ℕ) (later : List ℕ)
    → ((n : ℕ) → o ≡ some n → Behind mark n)
    → Nondecreasing (advance_store_timestamp_mark mark o false) later
    → Nondecreasing mark (with_stamp o later)
onward mark none later b r = subst (λ m. Nondecreasing m later) (kept mark) r
onward mark (some n) later b r =
    goes n later (b n refl) (subst (λ m. Nondecreasing m later) (advanced mark n (b n refl)) r)

-- Unless clock regression is allowed, the timestamps that any sequence of saves commits are at
-- least the store's mark and never decrease, whatever the clock reads.
pub stamps-Nondecreasing :
    (resolution : ℕ) (grace : Bool) (saves : List Save) (mark : Option ℕ)
    → Nondecreasing mark (stamps resolution false grace mark saves)
unfolding stamps
stamps-Nondecreasing resolution grace [] mark = ends
stamps-Nondecreasing resolution grace (save ∷ rest) mark =
    let r : Result StoreClockRegressionError ℕ =
      capture_store_timestamp save.first save.second resolution mark false grace in
    onward mark (committed resolution false grace save r) _
      (λ n h. committed-Behind resolution grace mark save r n refl h)
      (stamps-Nondecreasing resolution grace rest (saved resolution false grace mark save))

-- A clock that reaches the mark in nanoseconds is not behind it in units.
reached_mark :
    (resolution mark clock : ℕ)
    → 1 ≤ resolution
    → mark * resolution ≤ clock
    → mark ≤ clock / resolution
reached_mark resolution mark clock positive h = (le-div_iff_mul-le positive).1 h

-- If the clock is behind the mark by less than the grace period and has, after the sleep, gone on
-- by at least the time slept, a save is not refused, and its timestamp is not behind the mark.
pub capture_store_timestamp-slept :
    (first second resolution mark : ℕ)
    → 1 ≤ resolution
    → first / resolution < mark
    → deficit_ns resolution mark first < clock_regression_grace_ns
    → first + sleep_ns (deficit_ns resolution mark first) ≤ second
    → (capture_store_timestamp first second resolution (some mark) false true
        ≡ ok (second / resolution))
      × (mark ≤ second / resolution)
unfolding capture_store_timestamp
capture_store_timestamp-slept first second resolution mark positive behind near slept =
    let b : ltb (first / resolution) mark ≡ true = lt→ltb _ _ behind in
    let w : ltb (deficit_ns resolution mark first) clock_regression_grace_ns ≡ true =
      lt→ltb _ _ near in
    let m : mark ≤ second / resolution =
      reached_mark resolution mark second positive (omega arith) in
    let f : ltb (second / resolution) mark ≡ false = ground arith in (rw (b, w, f), m)
