-- ===== src/StoredFederation/Bounds.antt =====
-- The checks of the arguments of `query`, and the public ids that a prefix can have.
use httk_data.Prelude.{
  ℕ, Bool, true, false, not, ◌&&◌, Option, none, some, List, [], ◌∷◌, ◌++◌, length, drop, any, leb,
  ◌==◌, if◌then◌else◌, Result, ok, err, ℤ, pos, negsuc,
}
use httk_data.Filters.Texts.{same_codes, is_prefix}
use httk_data.StoredFederation.Candidates.{Text}
use httk_data.StoredFederation.Sources.{StoredError, value_error}

-- `_validate_page_bounds`, with the bounds as natural numbers.
unfoldable pub validate_page_bounds :
    {E : Type 0} → ℤ → Option ℤ → Result (StoredError E) (ℕ × Option ℕ)
validate_page_bounds (negsuc n) limit = err value_error
validate_page_bounds (pos offset) none = ok (offset, none)
validate_page_bounds (pos offset) (some (pos limit)) = ok (offset, some limit)
validate_page_bounds (pos offset) (some (negsuc n)) = err value_error

-- The loop of `_normalized_sort`, with the entries already accepted.
unfoldable pub normalized_sort :
    {E : Type 0}
    → List (Text × Bool)
    → List (Text × Bool)
    → Result (StoredError E) (List (Text × Bool))
normalized_sort result [] = ok result
normalized_sort result (([], descending) ∷ sort) = err value_error
normalized_sort result ((c ∷ cs, descending) ∷ sort) =
    let rest = normalized_sort (result ++ (c ∷ cs, descending) ∷ []) sort in
    if any (λ (entry : Text × Bool). same_codes (c ∷ cs) entry.0) result
    then err value_error
    else rest

-- The codes of the text `id`.
abbrev pub id_text : Text
id_text = 105 ∷ 100 ∷ []

abbrev pub stream_sort : List (Text × Bool) → List (Text × Bool)
stream_sort sort =
    if any (λ (entry : Text × Bool). same_codes entry.0 id_text) sort
    then sort
    else sort ++ (id_text, false) ∷ []

-- The characters of a content id: 0123456789abcdef.
abbrev pub is_hexadecimal : ℕ → Bool
is_hexadecimal c = if leb 48 c && leb c 57 then true else leb 97 c && leb c 102

abbrev pub all_hexadecimal : Text → Bool
all_hexadecimal [] = true
all_hexadecimal (c ∷ cs) = is_hexadecimal c && all_hexadecimal cs

abbrev pub content_id_for_public_id : Text → Text → Option Text
content_id_for_public_id id prefix =
    let value = drop (length prefix) id in
    if not (is_prefix prefix id)
    then none
    else if not (length value == 64 && all_hexadecimal value)
    then none
    else some value

abbrev pub is_empty : {A : Type 0} → List A → Bool
is_empty [] = true
is_empty (x ∷ xs) = false
