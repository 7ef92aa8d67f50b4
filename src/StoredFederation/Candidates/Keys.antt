-- ===== src/StoredFederation/Candidates/Keys.antt =====
-- `_Descending` and the parts of `_sort_key`: `(1, None)`, `(0, value)` and `(0, _Descending(value))`.
-- One position of a key has the second or the third, never both, by the direction of its sort.
use Prim.Native.Nat.{Ordering}
use Prim.Native.Nat.Ordering.{lt, eq, gt}
use httk_data.Prelude.{◌≡◌, refl}
use httk_data.Prelude.Comparison.{Comparison, flip, same_right}

pub data Part (V : Type 0) : Type 0 where
  missing : Part V
  ascending : V → Part V
  descending : V → Part V

module _ {V : Type 0} (values : Comparison V) where
  abbrev pub part_order : Part V → Part V → Ordering
  part_order missing missing = eq
  part_order missing (ascending b) = gt
  part_order missing (descending b) = gt
  part_order (ascending a) missing = lt
  part_order (ascending a) (ascending b) = values.cmp a b
  part_order (ascending a) (descending b) = lt
  part_order (descending a) missing = lt
  part_order (descending a) (ascending b) = gt
  part_order (descending a) (descending b) = values.cmp b a

  pub parts-flips : (x y : Part V) → part_order y x ≡ flip (part_order x y)
  parts-flips missing missing = refl
  parts-flips missing (ascending b) = refl
  parts-flips missing (descending b) = refl
  parts-flips (ascending a) missing = refl
  parts-flips (ascending a) (ascending b) = values.flips a b
  parts-flips (ascending a) (descending b) = refl
  parts-flips (descending a) missing = refl
  parts-flips (descending a) (ascending b) = refl
  parts-flips (descending a) (descending b) = values.flips b a

  pub parts-chain :
      (x y z : Part V) → part_order x y ≡ lt → part_order y z ≡ lt → part_order x z ≡ lt
  parts-chain missing missing z h k = cc
  parts-chain missing (ascending b) z h k = cc
  parts-chain missing (descending b) z h k = cc
  parts-chain x missing missing h k = cc
  parts-chain x missing (ascending b) h k = cc
  parts-chain x missing (descending b) h k = cc
  parts-chain (ascending a) y missing h k = refl
  parts-chain (descending a) y missing h k = refl
  parts-chain (ascending a) (ascending b) (ascending c) h k = values.chain a b c h k
  parts-chain (ascending a) y (descending c) h k = refl
  parts-chain (ascending a) (descending b) (ascending c) h k = cc
  parts-chain (descending a) (ascending b) z h k = cc
  parts-chain (descending a) (descending b) (ascending c) h k = cc
  parts-chain (descending a) (descending b) (descending c) h k = values.chain c b a k h

  pub parts-same : (x y z : Part V) → part_order x y ≡ eq → part_order x z ≡ part_order y z
  parts-same missing missing z h = refl
  parts-same missing (ascending b) z h = cc
  parts-same missing (descending b) z h = cc
  parts-same (ascending a) missing z h = cc
  parts-same (ascending a) (descending b) z h = cc
  parts-same (descending a) missing z h = cc
  parts-same (descending a) (ascending b) z h = cc
  parts-same (ascending a) (ascending b) missing h = refl
  parts-same (ascending a) (ascending b) (ascending c) h = values.same a b c h
  parts-same (ascending a) (ascending b) (descending c) h = refl
  parts-same (descending a) (descending b) missing h = refl
  parts-same (descending a) (descending b) (ascending c) h = refl
  parts-same (descending a) (descending b) (descending c) h = same_right values c b a h

  abbrev pub parts : Comparison (Part V)
  parts = record { cmp = part_order; flips = parts-flips; chain = parts-chain; same = parts-same }
