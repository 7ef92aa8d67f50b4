-- ===== src/Filters/Swap.antt =====
-- A comparison with its constant on the left.
use httk_data.Prelude.{ℕ, ◌≡◌, refl, Bool, true, not, String, List, arith, ltb, leb, ◌==◌}
use httk_data.Filters.Syntax.{
  Operator, ne, gt, lt, eq, le, ge, Operand, identifier, string_constant, number_constant,
  boolean_constant, null_constant, comparison,
}
use httk_data.Filters.Handlers.{invert_op}
use httk_data.Filters.Settings.{Settings, is_equality}
use httk_data.Filters.Translate.{translate_node}
use httk_data.Filters.Unknown.{is_constant}

-- The order that an operator tests.
abbrev pub holds : Operator → ℕ → ℕ → Bool
holds ne a b = not (a == b)
holds eq a b = a == b
holds lt a b = ltb a b
holds gt a b = ltb b a
holds le a b = leb a b
holds ge a b = leb b a

-- The inverted operator tests the same with its sides swapped.
pub invert_op-holds : (op : Operator) (a b : ℕ) → holds (invert_op op) b a ≡ holds op a b
unfolding invert_op
invert_op-holds ne a b = ground arith
invert_op-holds eq a b = ground arith
invert_op-holds _ a b = refl

invert_op-is_equality : (op : Operator) → is_equality (invert_op op) ≡ is_equality op
unfolding invert_op
invert_op-is_equality ne = refl
invert_op-is_equality _ = refl

-- A comparison with a constant on the left translates as the one with the sides swapped and the
-- operator inverted, for each operator, kind of constant, property and outcome.
pub translate_node-swapped :
    (s : Settings) (op : Operator) (v : Operand) (name : String) (path : List String)
    → is_constant v ≡ true
    → translate_node s (comparison op v (identifier name path))
      ≡ translate_node s (comparison (invert_op op) (identifier name path) v)
unfolding translate_node
translate_node-swapped s op (string_constant v) name path c = refl
translate_node-swapped s op (number_constant v) name path c = refl
translate_node-swapped s op (boolean_constant v) name path c = rw (invert_op-is_equality op)
translate_node-swapped s op (identifier n p) name path c = cc
translate_node-swapped s op null_constant name path c = cc
