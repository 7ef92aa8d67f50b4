-- ===== src/Evaluator/Compare.antt =====
-- `_compare` and the exact keys of codecs.
use httk_data.Prelude.{
  ℕ, List, Bool, true, false, not, ◌||◌, String, Option, none, some, Result, ok, err, ◌>>=◌,
  if◌then◌else◌,
}
use httk_data.Query.Truth.{Truth}
use httk_data.Filters.Texts.{is_prefix, is_infix, is_suffix}
use httk_data.Evaluator.Syntax.{
  Comparison, equal, unequal, less, less_equal, greater, greater_equal, contains, starts, ends,
  unsupported, Encoded, encoded, uncoded, failed, Objects, MongoValue, field_value, null_value,
}

-- The exceptions of an evaluation: `QueryLiteralError`, with the operator, `OverflowError` of a
-- fraction, what an encoding raises beyond `TypeError` and `ValueError`, and the `TypeError` of a
-- key that has no hash.
pub data EvaluationError : Type 0 where
  unsupported_operator : String → EvaluationError
  overflow_error : EvaluationError
  encoding_error : String → EvaluationError
  unhashable_key : EvaluationError

abbrev pub Evaluated : Type 0 → Type 0
Evaluated A = Result EvaluationError A

module _ (o : Objects) where
  open o use {
    Object, Codec, none_object, is_none, same, less_than, at_most, greater_than, at_least, text_of,
    has_exact, encode_exact,
  }

  abbrev pub is_null_literal : MongoValue o → Bool
  is_null_literal null_value = true
  is_null_literal v = false

  abbrev exact_of : Option Codec → Option Codec
  exact_of none = none
  exact_of (some c) = if has_exact c then some c else none

  -- `_exact_codec`
  unfoldable pub exact_codec : MongoValue o → Option Codec
  exact_codec (field_value scope field codec) = exact_of codec
  exact_codec v = none

  abbrev or_else : Option Codec → Option Codec → Option Codec
  or_else (some c) d = some c
  or_else none d = d

  -- `_comparison_codec`
  unfoldable pub comparison_codec : MongoValue o → MongoValue o → Option Codec
  unfolding exact_codec
  comparison_codec v w = or_else (exact_codec v) (exact_codec w)

  abbrev pub or_raw : Object → Encoded Object → Evaluated Object
  or_raw raw (encoded key) = ok key
  or_raw raw uncoded = ok raw
  or_raw raw (failed name) = err (encoding_error name)

  abbrev pub key_by : Object → Option Codec → Evaluated Object
  key_by raw none = ok raw
  key_by raw (some c) = or_raw raw (encode_exact c raw)

  -- `_exact_key`
  unfoldable pub exact_key : MongoValue o → Object → Option Codec → Evaluated Object
  unfolding exact_codec
  exact_key v raw codec = key_by raw (or_else codec (exact_codec v))

  abbrev pub missing : Object → Object → Bool
  missing x y = is_none x || is_none y

  unfoldable pub same_key : Object → MongoValue o → Object → MongoValue o → Evaluated Bool
  unfolding exact_key comparison_codec
  same_key x v y w = do
    a ← exact_key v x (comparison_codec v w)
    b ← exact_key w y (comparison_codec v w)
    ok (same a b)

  -- The test of `=`, with the outcome for a null literal and for two keys.
  unfoldable pub equality :
      (Bool → Bool) → Object → MongoValue o → Object → MongoValue o → Evaluated Truth
  unfolding same_key
  equality outcome x v y w =
      if is_null_literal v || is_null_literal w
      then ok (some (outcome (is_none (if is_null_literal v then y else x))))
      else if missing x y
      then ok none
      else same_key x v y w >>= λ same_keys. ok (some (outcome same_keys))

  abbrev pub both_texts : (List ℕ → List ℕ → Bool) → Option (List ℕ) → Option (List ℕ) → Truth
  both_texts f (some x) (some y) = some (f x y)
  both_texts f _ _ = none

  -- The tests of two values that are not None.
  abbrev pub ordered : Comparison → Object → Object → Evaluated Truth
  unfolding is_prefix is_infix is_suffix
  ordered less x y = ok (less_than x y)
  ordered less_equal x y = ok (at_most x y)
  ordered greater x y = ok (greater_than x y)
  ordered greater_equal x y = ok (at_least x y)
  ordered contains x y = ok (both_texts (λ s t. is_infix t s) (text_of x) (text_of y))
  ordered starts x y = ok (both_texts (λ s t. is_prefix t s) (text_of x) (text_of y))
  ordered ends x y = ok (both_texts (λ s t. is_suffix t s) (text_of x) (text_of y))
  ordered (unsupported text) x y = err (unsupported_operator text)
  ordered _ x y = ok none

  -- `_compare`
  unfoldable pub compare_values :
      Object → MongoValue o → Comparison → Object → MongoValue o → Evaluated Truth
  unfolding equality ordered
  compare_values x v equal y w = equality (λ b. b) x v y w
  compare_values x v unequal y w = equality not x v y w
  compare_values x v operator y w = if missing x y then ok none else ordered operator x y
