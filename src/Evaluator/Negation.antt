-- ===== src/Evaluator/Negation.antt =====
-- What NOT does to the other predicates, and the tests for None.
use httk_data.Prelude.{
  ◌≡◌, refl, sym, fun_ext, ◌∙◌, ap, Bool, true, false, not, ◌||◌, none, some, ok, err, ◌>>=◌,
  if◌then◌else◌,
}
use httk_data.Query.Truth.{Truth, truth_and, truth_or, truth_not}
use httk_data.Evaluator.Syntax.{
  equal, unequal, Objects, MongoValue, null_value, MongoPredicate, compare, is_null, conjunction,
  disjunction, negation,
}
use httk_data.Evaluator.Compare.{
  Evaluated, missing, compare_values, equality, same_key, is_null_literal,
}
use httk_data.Evaluator.Evaluate.{Environment, Resolvers, eval_value, eval_predicate}

de_morgan : (a b : Truth) → truth_not (truth_and a b) ≡ truth_or (truth_not a) (truth_not b)
de_morgan (some false) b = refl
de_morgan (some true) b = or_false (truth_not b)
  where
    or_false : (t : Truth) → t ≡ truth_or (some false) t
    or_false t = refl
de_morgan none (some false) = refl
de_morgan none (some true) = refl
de_morgan none none = refl

negated :
    (m n : Evaluated Truth)
    → ((m >>= (λ a. n >>= (λ b. ok (truth_and a b)))) >>= (λ c. ok (truth_not c))) ≡ (
        (m >>= (λ a. ok (truth_not a)))
        >>= (λ a. (n >>= (λ b. ok (truth_not b))) >>= (λ b. ok (truth_or a b))))
negated (ok a) (ok b) = ap ok (de_morgan a b)
negated (ok a) (err e) = refl
negated (err e) n = refl

some-not : (b : Bool) → some (not b) ≡ truth_not (some b)
some-not true = refl
some-not false = refl

not-outcome :
    (c d a : Bool) (m : Evaluated Bool)
    → (if c then ok (some (not a)) else if d then ok none else (m >>= λ b. ok (some (not b)))) ≡ (
        (if c then ok (some a) else if d then ok none else (m >>= λ b. ok (some b))) >>= λ t.
        ok (truth_not t))
not-outcome true d a m = ap ok (some-not a)
not-outcome false true a m = refl
not-outcome false false a (ok b) = ap ok (some-not b)
not-outcome false false a (err e) = refl

bind_assoc :
    {A B C : Type 0} (m : Evaluated A) (f : A → Evaluated B) (g : B → Evaluated C)
    → ((m >>= f) >>= g) ≡ (m >>= (λ a. f a >>= g))
bind_assoc (ok a) f g = refl
bind_assoc (err e) f g = refl

module _ (o : Objects) (r : Resolvers o) where
  open o use {Object, is_none}

  -- The negation of a conjunction is the disjunction of the negations, for unknown truth values and
  -- exceptions too.
  pub negation-conjunction :
      (p q : MongoPredicate o) (env : Environment o)
      → eval_predicate o r (negation (conjunction p q)) env
        ≡ eval_predicate o r (disjunction (negation p) (negation q)) env
  unfolding eval_predicate
  negation-conjunction p q env = negated (eval_predicate o r p env) (eval_predicate o r q env)

  negated_compare :
      (x : Object) (v : MongoValue o) (y : Object) (w : MongoValue o)
      → compare_values o x v unequal y w
        ≡ (compare_values o x v equal y w >>= (λ t. ok (truth_not t)))
  unfolding compare_values equality
  negated_compare x v y w =
      not-outcome (is_null_literal o v || is_null_literal o w) (missing o x y) _
        (same_key o x v y w)

  -- The operator != is the negation of =, for null literals, missing values, codecs and exceptions
  -- of the operands alike.
  pub compare-unequal :
      (v w : MongoValue o) (env : Environment o)
      → eval_predicate o r (compare v unequal w) env
        ≡ eval_predicate o r (negation (compare v equal w)) env
  unfolding eval_predicate
  compare-unequal v w env =
      let ev : Evaluated Object = eval_value o r v env in
      let ew : Evaluated Object = eval_value o r w env in
      ap (λ k. ev >>= k)
        (fun_ext (λ x.
          ap (λ k. ew >>= k) (fun_ext (λ y. negated_compare x v y w)) ∙ sym (bind_assoc ew _ _)))
      ∙ sym (bind_assoc ev _ _)

  -- A comparison by = with the null literal, on either side, is the test for None, and never unknown.
  pub compare-null_value :
      (v : MongoValue o) (env : Environment o)
      → (eval_predicate o r (compare v equal null_value) env ≡ eval_predicate o r (is_null v) env)
        × (eval_predicate o r (compare null_value equal v) env ≡ eval_predicate o r (is_null v) env)
  unfolding eval_predicate compare_values equality
  compare-null_value null_value env = (refl, refl)
  compare-null_value _ env = (refl, refl)
