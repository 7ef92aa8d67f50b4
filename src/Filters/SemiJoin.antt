-- ===== src/Filters/SemiJoin.antt =====
-- Filters on the properties of related entries.
use httk_data.Prelude.{
  ◌≡◌, refl, ap, ◌∙◌, true, false, String, some, List, [], ◌∷◌, any, map, length, ok, str_eq,
}
use httk_data.Filters.Syntax.{
  Operator, eq, Matching, SetOperator, Knowledge, Operand, identifier, string_constant, Leaf,
  set_test, comparison, matching, knowledge, string, text_value, SearchExpression, always,
  number_constant, boolean_constant, null_constant,
}
use httk_data.Filters.Values.{Checked, format_values}
use httk_data.Filters.Handlers.{invert_op, set_handler}
use httk_data.Filters.Settings.{
  Settings, id_test, join_ids, join_with, find, rel_key, is_target, equal_ops,
  relationship_semi_join,
}
use httk_data.Filters.Tables.{relationship_id_handler}
use httk_data.Filters.Translate.{
  translate_node, translate_rewritten, translate_set, translate_comparison, translate_matching,
  translate_knowledge,
}
use httk_data.Filters.Meaning.{Row, eval}
use httk_data.Filters.Unknown.{is_constant, orders_boolean}

-- `Joins rel sub l`: the node `l` tests the property `p` of the related entries of type `rel`, and
-- `sub` is the same test of `p` alone.
pub data Joins (rel p : String) : Leaf → Leaf → Type 0 where
  set_joins :
      (kind : SetOperator) (ops : List Operator) (right : List Operand)
      → str_eq p "id" ≡ false
      → Joins rel p
          (set_test kind ops (identifier p []) right)
          (set_test kind ops (identifier rel (p ∷ [])) right)
  comparison_joins :
      (op : Operator) (v : Operand)
      → is_constant v ≡ true
      → orders_boolean op v ≡ false
      → Joins rel p (comparison op (identifier p []) v) (comparison op (identifier rel (p ∷ [])) v)
  comparison_right_joins :
      (op : Operator) (v : Operand)
      → is_constant v ≡ true
      → orders_boolean op v ≡ false
      → Joins rel p
          (comparison (invert_op op) (identifier p []) v)
          (comparison op v (identifier rel (p ∷ [])))
  matching_joins :
      (kind : Matching) (right : Operand)
      → Joins rel p
          (matching kind (identifier p []) right)
          (matching kind (identifier rel (p ∷ [])) right)
  knowledge_joins :
      (kind : Knowledge)
      → Joins rel p (knowledge kind (identifier p [])) (knowledge kind (identifier rel (p ∷ [])))

-- The expression for a set of related ids.
abbrev pub membership : String → List String → SearchExpression
membership key [] = always false
membership key (id ∷ ids) = SearchExpression.field_has_any key (map text_value (id ∷ ids))

format_ids :
    (ids : List String)
    → format_values string false (map string_constant ids) ≡ ok (map text_value ids)
unfolding format_values
format_ids [] = refl
format_ids (id ∷ ids) = rw (format_ids ids)

equal_ops_ids :
    (ids : List String) → equal_ops (map (λ _. eq) ids) (length (map text_value ids)) ≡ true
equal_ops_ids [] = refl
equal_ops_ids (id ∷ ids) = equal_ops_ids ids

module _ (s : Settings) (rel p key : String) (resolve : String → Leaf → Checked (List String))
    (target : is_target s rel ≡ true) (resolver : s.resolver ≡ some resolve)
    (handler : find (rel_key rel) s.handlers ≡ some (relationship_id_handler key)) where
  rewritten :
      (id : String) (ids : List String)
      → translate_rewritten s (id_test rel (id ∷ ids)) ≡ ok (membership key (id ∷ ids))
  unfolding translate_rewritten relationship_id_handler set_handler
  rewritten id ids = rw (target, handler, format_ids ids, equal_ops_ids ids)

  joined_ids :
      (ids : List String) → join_ids (translate_rewritten s) rel ids ≡ ok (membership key ids)
  joined_ids [] = refl
  joined_ids (id ∷ ids) = rewritten id ids

  semi_join :
      (sub : Leaf) (ids : List String)
      → resolve rel sub ≡ ok ids
      → relationship_semi_join s (translate_rewritten s) rel (p ∷ []) sub ≡ ok (membership key ids)
  unfolding relationship_semi_join
  semi_join sub ids e =
      ap (λ o. join_with o (translate_rewritten s) rel (p ∷ []) sub) resolver
      ∙ rw e (joined_ids ids)

  joined :
      (sub l : Leaf)
      → Joins rel p sub l
      → translate_node s l ≡ relationship_semi_join s (translate_rewritten s) rel (p ∷ []) sub
  unfolding translate_node
  joined _ _ (set_joins kind ops right h) = rw (translate_set, target, h)
  joined _ _ (comparison_joins op (string_constant c) k h) = rw (translate_comparison, target)
  joined _ _ (comparison_joins op (number_constant c) k h) = rw (translate_comparison, target)
  joined _ _ (comparison_joins op (boolean_constant c) k h) =
      rw h (rw (translate_comparison, target))
  joined _ _ (comparison_joins op (identifier n q) k h) = cc
  joined _ _ (comparison_joins op null_constant k h) = cc
  joined _ _ (comparison_right_joins op (string_constant c) k h) = rw (translate_comparison, target)
  joined _ _ (comparison_right_joins op (number_constant c) k h) = rw (translate_comparison, target)
  joined _ _ (comparison_right_joins op (boolean_constant c) k h) =
      rw h (rw (translate_comparison, target))
  joined _ _ (comparison_right_joins op (identifier n q) k h) = cc
  joined _ _ (comparison_right_joins op null_constant k h) = cc
  joined _ _ (matching_joins kind right) = rw (translate_matching, target)
  joined _ _ (knowledge_joins kind) = rw (translate_knowledge, target)

  eval-membership :
      (r : Row) (ids : List String)
      → eval r (membership key ids) ≡ some (any (r.has key) (map text_value ids))
  eval-membership r [] = refl
  eval-membership r (id ∷ ids) = refl

  -- Take a test of a property of a related type that has a resolver and a relationship id handler:
  -- HAS on a property other than the id, a comparison with a constant that is not null on either
  -- side and is not a Boolean to be ordered, a text match, or IS KNOWN or UNKNOWN. If the resolver
  -- returns ids for the same test without the type, with the operator inverted if the constant is
  -- on the left, the test translates, and the translation means on each row that one of these ids
  -- is among the row's related ids.
  pub translate_node-semi_join :
      (sub l : Leaf) (ids : List String) (r : Row)
      → Joins rel p sub l
      → resolve rel sub ≡ ok ids
      → (e : SearchExpression) × (translate_node s l ≡ ok e)
        × (eval r e ≡ some (any (r.has key) (map text_value ids)))
  translate_node-semi_join sub l ids r j e =
      (membership key ids, joined sub l j ∙ semi_join sub ids e, eval-membership r ids)
