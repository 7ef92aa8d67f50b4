-- ===== src/StoredFederation/Cutoff/Latest.antt =====
-- The cutoff is the latest instant before the current unit of every clock.
use native.Mathlib.Nat.{div-lt_iff_lt-mul}
use httk_data.Prelude.{
  ℕ, zero, suc, ◌/◌, ◌≤◌, ◌<◌, ◌≡◌, refl, ◌↔◌, true, Option, none, some, List, [], ◌∷◌, All, arith,
  Bool-cases, inl, inr, ℤ, pos, negsuc,
}
use httk_data.StoredFederation.Sources.{StoredEntrySource, StoredEntryFederation}
use httk_data.StoredFederation.Cutoff.{
  minimum, one_less, cutoff_of, completed_buckets, snapshot_cutoff_ns,
}

-- An instant is not after a cutoff.
abbrev pub Within : ℕ → Option ℤ → Type 0
Within t none = Unit
Within t (some (negsuc n)) = ⊥
Within t (some (pos c)) = t ≤ c

Within-one_less : (t n : ℕ) → Within t (some (one_less n)) ↔ (t < n)
Within-one_less t zero = (λ h. absurd h, λ h. absurd (omega arith))
Within-one_less t (suc n) = (λ h. omega arith, λ h. omega arith)

below_minimum :
    (t least : ℕ) (ns : List ℕ) → (t < minimum least ns) ↔ ((t < least) × All (λ n. t < n) ns)
below_minimum t least [] = (λ h. (h, tt), λ h. h.0)
below_minimum t least (n ∷ ns) =
    let (forth, back) = below_minimum t n ns in
    (λ h. (omega arith, forth (omega arith)), λ (h, k). let l = back k in omega arith)

Within-cutoff_of : (t : ℕ) (ns : List ℕ) → Within t (cutoff_of ns) ↔ All (λ n. t < n) ns
Within-cutoff_of t [] = (λ h. tt, λ h. tt)
Within-cutoff_of t (n ∷ ns) =
    let (forth, back) = Within-one_less t (minimum n ns) in
    let (down, up) = below_minimum t n ns in (λ h. down (forth h), λ h. back (up h))

module _ {V F T E : Type 0} (now_ns t : ℕ) where
  -- The unit of a clock is positive.
  abbrev pub Clocked : StoredEntrySource V F T E → Type 0
  Clocked source = source.store_timestamps ≡ true → 1 ≤ source.store_timestamp_resolution

  -- The instant is in a unit of the source's clock that has ended.
  abbrev pub Ended : StoredEntrySource V F T E → Type 0
  Ended source =
      source.store_timestamps ≡ true
      → t / source.store_timestamp_resolution < now_ns / source.store_timestamp_resolution

  completed-Ended :
      (sources : List (StoredEntrySource V F T E))
      → All Clocked sources
      → All (λ n. t < n) (completed_buckets now_ns sources) ↔ All Ended sources
  completed-Ended [] h = (λ _. tt, λ _. tt)
  completed-Ended (source ∷ sources) (clocked, h) =
      let (forth, back) = completed-Ended sources h in
      elim (Bool-cases source.store_timestamps) [
        | inl capable ↦
            let (out, into) = div-lt_iff_lt-mul {x = t} (clocked capable) in
            rw capable (λ (k, ks). (λ _. into k, forth ks), λ (k, ks). (out (k refl), back ks))
        | inr incapable ↦ rw incapable (λ ks. (λ e. cc, forth ks), λ (k, ks). back ks)
      ]

  -- The cutoff is the latest instant that is in an ended unit of the clock of each source with
  -- timestamps; there is none without such a source.
  pub snapshot_cutoff_ns-Ended :
      (federation : StoredEntryFederation V F T E)
      → All Clocked federation.sources
      → Within t (snapshot_cutoff_ns federation now_ns) ↔ All Ended federation.sources
  unfolding snapshot_cutoff_ns
  snapshot_cutoff_ns-Ended federation h =
      let (forth, back) = completed-Ended federation.sources h in
      let (down, up) = Within-cutoff_of t (completed_buckets now_ns federation.sources) in
      (λ k. forth (down k), λ k. up (back k))
