-- ===== src/Evaluator/Exists.antt =====
-- A filter of a scope against a conjunction under EXISTS.
use httk_data.Prelude.{
  ℕ, ◌≡◌, refl, sym, ◌∙◌, ap, ap₂, All, err, Bool, true, false, ◌&&◌, ◌||◌, none, some, List, [],
  ◌∷◌, any, ok, ◌>>=◌, if◌then◌else◌,
}
use httk_data.Query.Truth.{Truth, truth_and}
use httk_data.Evaluator.Syntax.{
  Objects, Relationship, MongoScope, child, unfiltered, filtered, MongoPredicate, exists,
  conjunction,
}
use httk_data.Evaluator.Compare.{Evaluated}
use httk_data.Evaluator.Evaluate.{
  Environment, Resolvers, bind, is_true, related, items, eval_predicate, accepted, some_accepted,
}

abbrev kept : {A : Type 0} → (A → Bool) → List A → List A
kept p [] = []
kept p (x ∷ xs) = if p x then x ∷ kept p xs else kept p xs

any-if :
    {A : Type 0} (q : A → Bool) (b : Bool) (x : A) (xs : List A)
    → any q (if b then x ∷ xs else xs) ≡ ((b && q x) || any q xs)
any-if q true x xs = refl
any-if q false x xs = refl

any-kept :
    {A : Type 0} (p q : A → Bool) (xs : List A) → any q (kept p xs) ≡ any (λ x. p x && q x) xs
any-kept p q [] = refl
any-kept p q (x ∷ xs) = any-if q (p x) x (kept p xs) ∙ ap (λ b. (p x && q x) || b) (any-kept p q xs)

is_true-truth_and : (a b : Truth) → is_true (truth_and a b) ≡ (is_true a && is_true b)
is_true-truth_and (some true) b = refl
is_true-truth_and (some false) b = refl
is_true-truth_and none (some true) = refl
is_true-truth_and none (some false) = refl
is_true-truth_and none none = refl

abbrev answers : Bool → Evaluated Truth
answers b = ok (some b)

if-or : (b c : Bool) → (if b then answers true else answers c) ≡ answers (b || c)
if-or true c = refl
if-or false c = refl

-- The test returns a truth value.
abbrev pub Answers : Evaluated Truth → Type 0
Answers m = (t : Truth) × (m ≡ ok t)

-- Whether the test returns true.
abbrev accepts : Evaluated Truth → Bool
accepts (ok t) = is_true t
accepts (err e) = false

module _ (o : Objects) where
  open o use {Object}

  accepted-kept :
      (test : Object → Evaluated Truth) (xs : List Object)
      → All (λ x. Answers (test x)) xs
      → accepted o test xs ≡ ok (kept (λ x. accepts (test x)) xs)
  unfolding accepted
  accepted-kept test [] h = refl
  accepted-kept test (x ∷ xs) ((t, e), hs) = rw (e, accepted-kept test xs hs) refl

  some_accepted-any :
      (test : Object → Evaluated Truth) (xs : List Object)
      → All (λ x. Answers (test x)) xs
      → some_accepted o test xs ≡ ok (some (any (λ x. accepts (test x)) xs))
  unfolding some_accepted
  some_accepted-any test [] h = refl
  some_accepted-any test (x ∷ xs) ((t, e), hs) =
      rw (e, some_accepted-any test xs hs) (if-or (is_true t) _)

  All-kept :
      (P : Object → Type 0) (q : Object → Bool) (xs : List Object) → All P xs → All P (kept q xs)
  All-kept P q [] h = tt
  All-kept P q (x ∷ xs) (h, hs) = by_test (q x) (All-kept P q xs hs)
    where
      by_test : (b : Bool) → All P (kept q xs) → All P (if b then x ∷ kept q xs else kept q xs)
      by_test true rest = (h, rest)
      by_test false rest = rest

  module _ (f p : Object → Evaluated Truth) where
    both : Object → Evaluated Truth
    both x = f x >>= (λ a. p x >>= (λ b. ok (truth_and a b)))

    All-both :
        (xs : List Object)
        → All (λ x. Answers (f x)) xs
        → All (λ x. Answers (p x)) xs
        → All (λ x. Answers (both x)) xs
    unfolding both
    All-both [] hf hp = tt
    All-both (x ∷ xs) ((t, e), hf) ((u, d), hp) =
        ((truth_and t u, rw (e, d) refl), All-both xs hf hp)

    any-both :
        (xs : List Object)
        → All (λ x. Answers (f x)) xs
        → All (λ x. Answers (p x)) xs
        → any (λ x. accepts (f x) && accepts (p x)) xs ≡ any (λ x. accepts (both x)) xs
    unfolding both
    any-both [] hf hp = refl
    any-both (x ∷ xs) ((t, e), hf) ((u, d), hp) =
        ap₂ (λ b c. b || c) (rw (e, d) (sym (is_true-truth_and t u))) (any-both xs hf hp)

    some_accepted-accepted :
        (xs : List Object)
        → All (λ x. Answers (f x)) xs
        → All (λ x. Answers (p x)) xs
        → (accepted o f xs >>= some_accepted o p)
          ≡ some_accepted o (λ x. f x >>= (λ a. p x >>= (λ b. ok (truth_and a b)))) xs
    unfolding both
    some_accepted-accepted xs hf hp =
        ap (λ m. m >>= some_accepted o p) (accepted-kept f xs hf)
        ∙ some_accepted-any p (kept (λ x. accepts (f x)) xs)
            (All-kept (λ x. Answers (p x)) (λ x. accepts (f x)) xs hp)
        ∙ ap (λ b. ok (some b))
            (any-kept (λ x. accepts (f x)) (λ x. accepts (p x)) xs ∙ any-both xs hf hp)
        ∙ sym (some_accepted-any both xs (All-both xs hf hp))

  -- EXISTS over a filtered scope and a predicate gives the same as EXISTS over the unfiltered scope
  -- and the conjunction of the filter and the predicate, when the scope is not bound, its parents
  -- are found without an exception, and the filter and the predicate each return a truth value for
  -- every item of the unfiltered scope.
  pub exists-filtered :
      (r : Resolvers o) (i : ℕ) (parent : MongoScope o) (relationship : Relationship)
      (scalar : Bool) (f p : MongoPredicate o) (env : Environment o) (parents : List Object)
      → env i ≡ none
      → items o r parent env ≡ ok parents
      → All (λ x. Answers (eval_predicate o r f (bind o env i x))) (related o relationship parents)
      → All (λ x. Answers (eval_predicate o r p (bind o env i x))) (related o relationship parents)
      → eval_predicate o r (exists (child i parent relationship (filtered f) scalar) p) env
        ≡ eval_predicate o r
            (exists (child i parent relationship unfiltered scalar) (conjunction f p))
            env
  unfolding eval_predicate
  exists-filtered r i parent relationship scalar f p env parents unbound found hf hp =
      rw (unbound, found)
        (some_accepted-accepted (λ x. eval_predicate o r f (bind o env i x))
          (λ x. eval_predicate o r p (bind o env i x)) (related o relationship parents) hf hp)
