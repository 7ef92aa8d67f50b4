-- ===== src/Clock/State/RoundTrip.antt =====
-- A marker is parsed exactly if it is one that is written.
use httk_data.Prelude.{
  ℕ, zero, suc, ◌+◌, ◌-◌, ◌*◌, ◌/◌, ◌%◌, ◌≤◌, ◌<◌, ◌≡◌, ◌↔◌, ◌≢◌, refl, sym, ap, ap₂, ◌∙◌, subst,
  Bool, true, false, Option, none, some, List, [], ◌∷◌, ◌++◌, ltb, arith, Bool-cases, inl, inr,
}
use httk_data.Filters.Texts.{is_prefix, same_codes, same_codes_refl, same_codes→eq}
use httk_data.Filters.Decimal.{is_digit}
use httk_data.Clock.State.{
  digits, str, scan, read_int, StateValue, text, other, marker, off, encode_store_timestamp_state,
  accepted, parse_resolution, after_marker, parse_store_timestamp_state,
}

-- One more digit.
scan_append :
    (xs : List ℕ) (m n d : ℕ)
    → scan m xs ≡ some n
    → d < 10
    → scan m (xs ++ (b'0' + d) ∷ []) ≡ some (n * 10 + d)
unfolding scan
scan_append [] m n d h l = ground arith
scan_append (c ∷ xs) m n d h l = elim (Bool-cases (is_digit c)) [
  | inl e ↦ rw e (scan_append xs (m * 10 + (c - b'0')) n d (rw e at h) l)
  | inr e ↦ let no : none ≡ some n = rw e at h in cc
]

scan-digits : (fuel n : ℕ) → n < fuel → scan 0 (digits fuel n) ≡ some n
unfolding digits scan
scan-digits zero n h = absurd (omega arith)
scan-digits (suc fuel) n h = elim (Bool-cases (ltb n 10)) [
  | inl e ↦
      let value : 0 * 10 + n ≡ n = omega arith in
      rw e (scan_append [] 0 0 n refl (ground arith) ∙ ap some value)
  | inr e ↦
      let front : scan 0 (digits fuel (n / 10)) ≡ some (n / 10) =
        scan-digits fuel (n / 10) (ground arith) in
      let whole : n / 10 * 10 + n % 10 ≡ n = omega arith in
      rw e
        (scan_append (digits fuel (n / 10)) 0 (n / 10) (n % 10) front (omega arith) ∙ ap some whole)
]

not_empty : (xs : List ℕ) (x : ℕ) → xs ++ x ∷ [] ≢ []
not_empty [] x h = cc
not_empty (y ∷ xs) x h = cc

digits_nonempty : (fuel n : ℕ) → digits (suc fuel) n ≢ []
unfolding digits
digits_nonempty fuel n h = elim (Bool-cases (ltb n 10)) [
  | inl e ↦ let no : (b'0' + n) ∷ [] ≡ [] = rw e at h in cc
  | inr e ↦ not_empty (digits fuel (n / 10)) (b'0' + n % 10) (rw e at h)
]

read_int-str : (n : ℕ) → read_int (str n) ≡ some n
read_int-str n = go (str n) (scan-digits (suc n) n (omega arith)) (digits_nonempty n n)
  where
    go : (s : List ℕ) → scan 0 s ≡ some n → s ≢ [] → read_int s ≡ some n
    go [] h ne = absurd (ne refl)
    go (c ∷ s) h ne = h

parse_resolution-str : (n : ℕ) → 1 ≤ n → parse_resolution (str n) ≡ some (true, some n)
unfolding parse_resolution
parse_resolution-str zero h = absurd (omega arith)
parse_resolution-str (suc n) h =
    ap (accepted (str (suc n))) (read_int-str (suc n)) ∙ rw (same_codes_refl (str (suc n))) refl

-- The option that a marker stands for.
abbrev pub setting : Bool → ℕ → Option ℕ
setting true resolution = some resolution
setting false resolution = none

parse-encode :
    (enabled : Bool) (resolution : ℕ)
    → 1 ≤ resolution
    → parse_store_timestamp_state (text (encode_store_timestamp_state enabled resolution))
      ≡ some (enabled, setting enabled resolution)
unfolding parse_store_timestamp_state encode_store_timestamp_state after_marker is_prefix
parse-encode false resolution h = refl
parse-encode true resolution h = parse_resolution-str resolution h

-- What is parsed was written, with some positive resolution.
abbrev pub Written : StateValue → Bool → Option ℕ → Type 0
Written value enabled found =
    (resolution : ℕ) × (1 ≤ resolution)
    × (value ≡ text (encode_store_timestamp_state enabled resolution))
    × (found ≡ setting enabled resolution)

accepted-Written :
    (encoded : List ℕ) (read : Option ℕ) (enabled : Bool) (found : Option ℕ)
    → accepted encoded read ≡ some (enabled, found)
    → Written (text (marker ++ encoded)) enabled found
unfolding encode_store_timestamp_state
accepted-Written encoded none enabled found h = cc
accepted-Written encoded (some zero) enabled found h = cc
accepted-Written encoded (some (suc n)) enabled found h =
    elim (Bool-cases (same_codes (str (suc n)) encoded)) [
      | inr e ↦ let no : none ≡ some (enabled, found) = rw e at h in cc
      | inl e ↦
          let k : some (true, some (suc n)) ≡ some (enabled, found) = rw e at h in
          let on : true ≡ enabled = cc in
          let unit : some (suc n) ≡ found = cc in
          subst (λ b. Written (text (marker ++ encoded)) b found) on
            (
              suc n,
              omega arith,
              ap (λ s. text (marker ++ s)) (sym (same_codes→eq (str (suc n)) encoded e)),
              sym unit,
            )
    ]

prefix_of_marker :
    (a b c : ℕ) (encoded : List ℕ)
    → is_prefix marker (a ∷ b ∷ c ∷ encoded) ≡ true
    → a ∷ b ∷ c ∷ encoded ≡ marker ++ encoded
unfolding is_prefix
prefix_of_marker a b c encoded h =
    let first : a ≡ 118 = ground arith in
    let second : b ≡ 49 = ground arith in
    let third : c ≡ 58 = ground arith in
    ap₂ ◌∷◌ first (ap₂ ◌∷◌ second (ap (λ x. x ∷ encoded) third))

after_marker-Written :
    (value : List ℕ) (enabled : Bool) (found : Option ℕ)
    → after_marker value ≡ some (enabled, found)
    → Written (text value) enabled found
unfolding after_marker parse_resolution
after_marker-Written [] enabled found h = cc
after_marker-Written (a ∷ []) enabled found h = cc
after_marker-Written (a ∷ b ∷ []) enabled found h = cc
after_marker-Written (a ∷ b ∷ c ∷ encoded) enabled found h =
    elim (Bool-cases (is_prefix marker (a ∷ b ∷ c ∷ encoded))) [
      | inr e ↦ let no : none ≡ some (enabled, found) = rw e at h in cc
      | inl e ↦
          subst (λ v. Written (text v) enabled found) (sym (prefix_of_marker a b c encoded e))
            (accepted-Written encoded (read_int encoded) enabled found (rw e at h))
    ]

parse-Written :
    (value : StateValue) (enabled : Bool) (found : Option ℕ)
    → parse_store_timestamp_state value ≡ some (enabled, found)
    → Written value enabled found
unfolding parse_store_timestamp_state encode_store_timestamp_state
parse-Written other enabled found h = cc
parse-Written (text value) enabled found h = elim (Bool-cases (same_codes value off)) [
  | inr e ↦ after_marker-Written value enabled found (rw e at h)
  | inl e ↦
      let k : some (false, none) ≡ some (enabled, found) = rw e at h in
      let on : false ≡ enabled = cc in
      let nothing : none ≡ found = cc in
      subst (λ b. Written (text value) b found) on
        (1, omega arith, ap text (same_codes→eq value off e), sym nothing)
]

-- A value is parsed exactly if it is what is written, with a positive resolution, and then as what
-- it was written for.
pub parse_store_timestamp_state-Written :
    (value : StateValue) (enabled : Bool) (found : Option ℕ)
    → (parse_store_timestamp_state value ≡ some (enabled, found)) ↔ Written value enabled found
parse_store_timestamp_state-Written value enabled found =
    (parse-Written value enabled found, λ w. written value enabled found w)
  where
    written :
        (value : StateValue) (enabled : Bool) (found : Option ℕ)
        → Written value enabled found
        → parse_store_timestamp_state value ≡ some (enabled, found)
    written value enabled found (resolution, positive, v, f) =
        ap parse_store_timestamp_state v
        ∙ parse-encode enabled resolution positive
        ∙ ap (λ o. some (enabled, o)) (sym f)
