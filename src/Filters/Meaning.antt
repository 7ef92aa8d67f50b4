-- ===== src/Filters/Meaning.antt =====
-- What a search expression means on a row of a backend.
use httk_data.Prelude.{Bool, String, some, List, any}
use httk_data.Query.Truth.{Truth, truth_and, truth_or, truth_not}
use httk_data.Filters.Syntax.{
  Operator, Matching, FilterValue, SearchExpression, always, field_compare, field_match,
  field_has_any, field_has_only, both, either, inverse,
}

-- The tests of one row: comparisons and matches may be UNKNOWN, those of a list field are not.
pub record Row : Type 0 where
  pub compares : String → Operator → FilterValue → Truth
  pub matches : String → Matching → FilterValue → Truth
  pub has : String → FilterValue → Bool
  pub has_only : String → List FilterValue → Bool

abbrev pub eval : Row → SearchExpression → Truth
eval r (always b) = some b
eval r (field_compare f op v) = r.compares f op v
eval r (field_match f kind v) = r.matches f kind v
eval r (field_has_any f vs) = some (any (r.has f) vs)
eval r (field_has_only f vs) = some (r.has_only f vs)
eval r (both a b) = truth_and (eval r a) (eval r b)
eval r (either a b) = truth_or (eval r a) (eval r b)
eval r (inverse a) = truth_not (eval r a)
