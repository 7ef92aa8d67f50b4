-- ===== src/Filters/Sets.antt =====
-- The HAS family: the expressions over a list field and the folding of two constant sets agree.
use httk_data.Prelude.{
  ◌≡◌, refl, ap, fun_ext, ◌∙◌, Bool, true, false, ◌&&◌, ◌||◌, String, some, List, [], ◌∷◌, any, all,
  ok, err,
}
use httk_data.Query.Truth.{Truth}
use httk_data.Filters.Syntax.{
  Operator, SetOperator, has_all, has_any, has_only, FilterValue, SearchExpression, field_has_any,
  both,
}
use httk_data.Filters.Values.{Checked}
use httk_data.Filters.Handlers.{all_of, set_handler, value_in, constant_set_handler}
use httk_data.Filters.Meaning.{Row, eval}

-- The meaning of a translation, or its exception.
abbrev pub meaning : Row → Checked SearchExpression → Checked Truth
meaning r (ok e) = ok (eval r e)
meaning r (err x) = err x

or_false : (b : Bool) → (b || false) ≡ b
or_false true = refl
or_false false = refl

eval-all_of :
    (r : Row) (f : String) (e : SearchExpression) (b : Bool) (vs : List FilterValue)
    → eval r e ≡ some b
    → eval r (all_of f e vs) ≡ some (b && all (r.has f) vs)
unfolding all_of
eval-all_of r f e true [] h = h
eval-all_of r f e false [] h = h
eval-all_of r f e true (v ∷ vs) h =
    eval-all_of r f (both e (field_has_any f (v ∷ []))) (r.has f v) vs
      (rw h (ap some (or_false (r.has f v))))
eval-all_of r f e false (v ∷ vs) h =
    eval-all_of r f (both e (field_has_any f (v ∷ []))) false vs (rw h)

-- Over a row whose list field holds the values `a`, each operator of the HAS family on a nonempty
-- list of values means what the folding of the two constant sets gives: for HAS ALL, HAS ANY and
-- HAS ONLY alike, and whatever equality the values have.
pub set_handler-eq-constant_set_handler :
    (same : FilterValue → FilterValue → Bool) (r : Row) (f : String) (a : List FilterValue)
    (ops : List Operator) (v : FilterValue) (vs : List FilterValue) (kind : SetOperator)
    → ((x : FilterValue) → r.has f x ≡ value_in same a x)
    → ((xs : List FilterValue) → r.has_only f xs ≡ all (value_in same xs) a)
    → meaning r (set_handler f ops (v ∷ vs) kind)
      ≡ meaning r (constant_set_handler same a ops (v ∷ vs) kind)
unfolding set_handler constant_set_handler
set_handler-eq-constant_set_handler same r f a ops v vs has_all h k = ap ok (
    eval-all_of r f (field_has_any f (v ∷ [])) (r.has f v) vs (ap some (or_false (r.has f v)))
    ∙ ap (λ p. some (p v && all p vs)) (fun_ext h))
set_handler-eq-constant_set_handler same r f a ops v vs has_any h k =
    ap (λ p. ok (some (any p (v ∷ vs)))) (fun_ext h)
set_handler-eq-constant_set_handler same r f a ops v vs has_only h k =
    ap (λ b. ok (some b)) (k (v ∷ vs))
