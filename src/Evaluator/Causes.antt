-- ===== src/Evaluator/Causes.antt =====
-- The causes of the exceptions of each part of an evaluation.
use httk_data.Prelude.{
  ◌||◌, ◌≡◌, refl, Bool, true, false, String, Option, none, some, List, [], ◌∷◌, ok, err, not,
  Bool-cases, inl, inr, ◌>>=◌, if◌then◌else◌,
}
use httk_data.Query.Truth.{Truth}
use httk_data.Evaluator.Syntax.{
  Comparison, equal, unequal, unsupported, Converted, converted, refused, overflow, Encoded,
  encoded, uncoded, failed, Objects, MongoValue,
}
use httk_data.Evaluator.Compare.{
  EvaluationError, overflow_error, encoding_error, unhashable_key, Evaluated, missing,
  compare_values, equality, same_key, exact_key, key_by, or_raw, is_null_literal,
}
use httk_data.Evaluator.Evaluate.{
  compare_scaled, with_fraction, or_items, is_true, accepted, some_accepted, add_key, distinct_keys,
}
use httk_data.Evaluator.Supported.{SupportedOperator}

-- Why an evaluation raises an exception.
pub data Cause (o : Objects) : EvaluationError → Type 0 where
  infinite : (x : Objects.Object o) → Objects.fraction o x ≡ overflow → Cause o overflow_error
  not_encoded :
      (c : Objects.Codec o) (x : Objects.Object o) (name : String)
      → Objects.encode_exact o c x ≡ failed name
      → Cause o (encoding_error name)
  not_hashed : (x : Objects.Object o) → Objects.hashable o x ≡ false → Cause o unhashable_key

-- A result, or an exception that has a cause.
pub data Caused (o : Objects) {A : Type 0} : Evaluated A → Type 0 where
  returned : (a : A) → Caused o (ok a)
  raised : (e : EvaluationError) → Cause o e → Caused o (err e)

module _ (o : Objects) where
  open o use {Object, Codec, Fraction, is_none, fraction, hashable, encode_exact}

  pub Caused-bind :
      {A B : Type 0} (m : Evaluated A) (f : A → Evaluated B)
      → Caused o m
      → ((a : A) → Caused o (f a))
      → Caused o (m >>= f)
  Caused-bind _ f (returned a) k = k a
  Caused-bind _ f (raised e c) k = raised e c

  pub Caused-if :
      {A : Type 0} (b : Bool) (m n : Evaluated A)
      → Caused o m
      → Caused o n
      → Caused o (if b then m else n)
  Caused-if true m n h k = h
  Caused-if false m n h k = k

  pub accepted-Caused :
      (test : Object → Evaluated Truth) (xs : List Object)
      → ((x : Object) → Caused o (test x))
      → Caused o (accepted o test xs)
  unfolding accepted
  accepted-Caused test [] h = returned _
  accepted-Caused test (x ∷ xs) h =
      Caused-bind (test x) _ (h x)
        (λ b. Caused-bind (accepted o test xs) _ (accepted-Caused test xs h) (λ ys. (returned _)))

  pub some_accepted-Caused :
      (test : Object → Evaluated Truth) (xs : List Object)
      → ((x : Object) → Caused o (test x))
      → Caused o (some_accepted o test xs)
  unfolding some_accepted
  some_accepted-Caused test [] h = (returned _)
  some_accepted-Caused test (x ∷ xs) h = Caused-bind (test x) _ (h x) (λ b.
      Caused-if (is_true b) (ok (some true)) (some_accepted o test xs) (returned _)
        (some_accepted-Caused test xs h))

  hashed-Caused :
      (k : Object) (keys : List Object)
      → Caused o (if hashable k then ok keys else err unhashable_key)
  hashed-Caused k keys = elim (Bool-cases (hashable k)) [
    | inl e ↦ rw e (returned _)
    | inr e ↦ rw e (raised _ (not_hashed k e))
  ]

  add_key-Caused :
      (key : Object → Evaluated Object) (found : List Object) (candidate : Object)
      → Caused o (key candidate)
      → Caused o (add_key o key found candidate)
  unfolding add_key
  add_key-Caused key found candidate h =
      Caused-if (is_none candidate) (ok found) _ (returned _)
        (Caused-bind (key candidate) _ h (λ k. hashed-Caused k _))

  pub distinct_keys-Caused :
      (value key : Object → Evaluated Object) (xs : List Object)
      → ((x : Object) → Caused o (value x))
      → ((x : Object) → Caused o (key x))
      → (found : List Object) → Caused o (distinct_keys o value key found xs)
  unfolding distinct_keys
  distinct_keys-Caused value key [] h k found = (returned _)
  distinct_keys-Caused value key (x ∷ xs) h k found = Caused-bind (value x) _ (h x) (λ c.
      Caused-bind (add_key o key found c) _ (add_key-Caused key found c (k c))
        (λ keys. distinct_keys-Caused value key xs h k keys))

  with_fraction-Caused :
      (x : Object) (m : Converted Fraction) (rest : Fraction → Evaluated Truth)
      → fraction x ≡ m
      → ((y : Fraction) → Caused o (rest y))
      → Caused o (with_fraction o m rest)
  unfolding with_fraction
  with_fraction-Caused x (converted y) rest h k = k y
  with_fraction-Caused x refused rest h k = returned _
  with_fraction-Caused x overflow rest h k = raised _ (infinite x h)

  pub compare_scaled-Caused : (a f b g : Object) → Caused o (compare_scaled o a f b g)
  unfolding compare_scaled
  compare_scaled-Caused a f b g =
      Caused-if ((is_none a || is_none f) || (is_none b || is_none g)) (ok none) _ (returned _) (
        with_fraction-Caused a (fraction a) _ refl (λ x.
          with_fraction-Caused f (fraction f) _ refl (λ m.
            with_fraction-Caused b (fraction b) _ refl
              (λ y. with_fraction-Caused g (fraction g) _ refl (λ n. returned _)))))

  pub or_items-Caused :
      (found : Option Object) (m : Evaluated (List Object))
      → Caused o m
      → Caused o (or_items o found m)
  or_items-Caused (some x) m h = returned _
  or_items-Caused none m h = h

  or_raw-Caused :
      (c : Codec) (x : Object) (e : Encoded Object) → encode_exact c x ≡ e → Caused o (or_raw o x e)
  or_raw-Caused c x (encoded k) h = returned _
  or_raw-Caused c x uncoded h = returned _
  or_raw-Caused c x (failed name) h = raised _ (not_encoded c x name h)

  key_by-Caused : (x : Object) (codec : Option Codec) → Caused o (key_by o x codec)
  key_by-Caused x none = (returned _)
  key_by-Caused x (some c) = or_raw-Caused c x (encode_exact c x) refl

  pub exact_key-Caused :
      (v : MongoValue o) (x : Object) (codec : Option Codec) → Caused o (exact_key o v x codec)
  unfolding exact_key
  exact_key-Caused v x codec = key_by-Caused x _

  same_key-Caused :
      (x : Object) (v : MongoValue o) (y : Object) (w : MongoValue o)
      → Caused o (same_key o x v y w)
  unfolding same_key
  same_key-Caused x v y w =
      Caused-bind (exact_key o v x _) _ (exact_key-Caused v x _)
        (λ a. Caused-bind (exact_key o w y _) _ (exact_key-Caused w y _) (λ b. (returned _)))

  equality-Caused :
      (outcome : Bool → Bool) (x : Object) (v : MongoValue o) (y : Object) (w : MongoValue o)
      → Caused o (equality o outcome x v y w)
  unfolding equality
  equality-Caused outcome x v y w =
      Caused-if (is_null_literal o v || is_null_literal o w) (ok _) _ (returned _) (
        Caused-if (missing o x y) (ok none) _ (returned _)
          (Caused-bind (same_key o x v y w) _ (same_key-Caused x v y w) (λ b. (returned _))))

  pub compare_values-Caused :
      (x : Object) (v : MongoValue o) (operator : Comparison) (y : Object) (w : MongoValue o)
      → SupportedOperator operator
      → Caused o (compare_values o x v operator y w)
  unfolding compare_values
  compare_values-Caused x v equal y w h = equality-Caused (λ b. b) x v y w
  compare_values-Caused x v unequal y w h = equality-Caused not x v y w
  compare_values-Caused x v (unsupported text) y w h = elim h [ ]
  compare_values-Caused x v _ y w h =
      Caused-if (missing o x y) (ok none) _ (returned _) (returned _)
