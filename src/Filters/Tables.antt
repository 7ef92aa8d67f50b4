-- ===== src/Filters/Tables.antt =====
-- The default handler tables and `filter_searcher`.
use httk_data.Prelude.{
  String, Option, none, some, List, [], ◌∷◌, map, if◌then◌else◌, str_eq, ok, ◌>>=◌,
}
use httk_data.Filters.Syntax.{
  FilterAst, Operator, FilterValue, Fulltype, integer, float, string, timestamp, list_of,
  SearchExpression, Leaf,
}
use httk_data.Filters.Values.{Checked}
use httk_data.Filters.Handlers.{
  known_unknown_handler, string_handler, number_handler, stringmatching_handler, set_handler,
  constant_comparison_handler, constant_stringmatching_handler,
}
use httk_data.Filters.Settings.{Handlers, no_handlers, find}
use httk_data.Filters.Translate.{translate_filter_ast}

abbrev pub id_field : String
id_field = "__id"

-- `timestamp_handler`, which normalizes RFC 3339 texts by the datetime library, is an argument.
abbrev pub TimestampHandler : Type 0
TimestampHandler = String → Operator → FilterValue → Checked SearchExpression

abbrev pub id_handlers : Handlers
id_handlers = record no_handlers {
  comparison = some (λ entry op value. string_handler id_field op value);
  unknown = some known_unknown_handler;
  stringmatching = some (λ entry value kind. stringmatching_handler id_field value kind);
}

abbrev pub type_handlers : String → Handlers
type_handlers entry_type = record no_handlers {
  comparison = some (λ entry op value. constant_comparison_handler entry_type op value);
  unknown = some known_unknown_handler;
  stringmatching = some (λ entry value kind. constant_stringmatching_handler entry_type value kind);
}

-- The generated table of one property, by its fulltype and its backend field.
abbrev pub generated : TimestampHandler → Fulltype → String → Handlers
generated stamp (list_of f) key = record no_handlers {
  unknown = some known_unknown_handler;
  has = some (λ entry ops values kind. set_handler key ops values kind);
}
generated stamp integer key = record no_handlers {
  unknown = some known_unknown_handler;
  comparison = some (λ entry op value. number_handler key op value);
}
generated stamp float key = record no_handlers {
  unknown = some known_unknown_handler;
  comparison = some (λ entry op value. number_handler key op value);
}
generated stamp timestamp key = record no_handlers {
  unknown = some known_unknown_handler;
  comparison = some (λ entry op value. stamp key op value);
}
generated stamp f key = record no_handlers {
  unknown = some known_unknown_handler;
  comparison = some (λ entry op value. string_handler key op value);
  stringmatching = some (λ entry value kind. stringmatching_handler key value kind);
}

abbrev pub fulltype_or_string : Option Fulltype → Fulltype
fulltype_or_string none = string
fulltype_or_string (some f) = f

-- `dict` assignment: in place if the key is there, else at the end.
unfoldable pub assign : String → Handlers → List (String × Handlers) → List (String × Handlers)
assign k v [] = (k, v) ∷ []
assign k v ((j, w) ∷ m) = if str_eq j k then (j, v) ∷ m else (j, w) ∷ assign k v m

unfoldable pub add_properties :
    TimestampHandler
    → List (String × String)
    → List (String × Fulltype)
    → List (String × Handlers)
    → List (String × Handlers)
unfolding assign
add_properties stamp [] fulltypes handlers = handlers
add_properties stamp ((name, key) ∷ rest) fulltypes handlers =
    add_properties stamp rest fulltypes
      (assign name (generated stamp (fulltype_or_string (find name fulltypes)) key) handlers)

unfoldable pub simple_property_handlers :
    TimestampHandler
    → String
    → List (String × String)
    → List (String × Fulltype)
    → List (String × Handlers)
unfolding add_properties
simple_property_handlers stamp entry_type property_keys fulltypes =
    add_properties stamp property_keys fulltypes
      (("id", id_handlers) ∷ ("type", type_handlers entry_type) ∷ [])

unfoldable pub relationship_id_handler : String → Handlers
relationship_id_handler key = record no_handlers {
  has = some (λ entry ops values kind. set_handler key ops values kind);
}

abbrev default_keys :
    List (String × Fulltype) → Option (List (String × String)) → List (String × String)
default_keys fulltypes none = map (λ (p : String × Fulltype). (p.0, p.0)) fulltypes
default_keys fulltypes (some keys) = keys

abbrev default_handlers :
    TimestampHandler
    → String
    → List (String × Fulltype)
    → Option (List (String × String))
    → Option (List (String × Handlers))
    → List (String × Handlers)
default_handlers stamp entry_type fulltypes keys none =
    simple_property_handlers stamp entry_type (default_keys fulltypes keys) fulltypes
default_handlers stamp entry_type fulltypes keys (some handlers) = handlers

-- What the searcher gets: the name of its one output and the translated condition. The parser of
-- filter texts is not part of the repository, so the filter comes as its syntax tree.
unfoldable pub filter_searcher :
    TimestampHandler
    → FilterAst
    → String
    → List (String × Fulltype)
    → Option (List (String × String))
    → Option (List (String × Handlers))
    → List String
    → List String
    → Option (String → Leaf → Checked (List String))
    → Checked (String × SearchExpression)
unfolding simple_property_handlers translate_filter_ast
filter_searcher stamp ast entry_type fulltypes keys handlers prefixes targets resolver = do
  condition ←
      translate_filter_ast
        (record {
          property_fulltypes = fulltypes;
          handlers = default_handlers stamp entry_type fulltypes keys handlers;
          recognized_prefixes = prefixes;
          relationship_targets = targets;
          resolver = resolver;
        })
        ast
  ok (entry_type, condition)
