-- ===== src/Filters/Mismatch.antt =====
-- A set test on a known property that is no list.
use httk_data.Prelude.{◌≡◌, Bool, true, false, ◌&&◌, String, some, List, ◌∷◌, err}
use httk_data.Filters.Syntax.{
  Operator, SetOperator, Operand, identifier, set_test, type_error, Fulltype, boolean, dict,
  unknown, list_of,
}
use httk_data.Filters.Settings.{Settings, find, is_target, is_dotted}
use httk_data.Filters.Translate.{translate_node, translate_set}

-- A fulltype of single values that a filter can compare.
abbrev pub is_scalar : Fulltype → Bool
is_scalar (list_of _) = false
is_scalar dict = false
is_scalar unknown = false
is_scalar _ = true

-- HAS on a known property of a scalar type, not a path into a relationship, ends in a `TypeError`
-- of Python, whatever the handlers, the values and their number above zero, and not in a
-- `FilterTranslationError`.
pub translate_node-scalar_has :
    (s : Settings) (kind : SetOperator) (ops : List Operator) (name : String) (path : List String)
    (f : Fulltype) (v : Operand) (vs : List Operand)
    → find name s.property_fulltypes ≡ some f
    → is_scalar f ≡ true
    → (is_dotted path && is_target s name) ≡ false
    → translate_node s (set_test kind ops (identifier name path) (v ∷ vs)) ≡ err type_error
unfolding translate_node
translate_node-scalar_has s kind ops name path boolean v vs known scalar own =
    rw (translate_set, own, known)
translate_node-scalar_has s kind ops name path (list_of f) v vs known scalar own = cc
translate_node-scalar_has s kind ops name path dict v vs known scalar own = cc
translate_node-scalar_has s kind ops name path unknown v vs known scalar own = cc
translate_node-scalar_has s kind ops name path _ v vs known scalar own =
    rw (translate_set, own, known)
