-- ===== src/StoredFederation/Candidates.antt =====
-- `StoredEntrySource`, `_Stream`, `_Candidate` and the keys by which candidates are merged. A text
-- is its code points. Python's order of the sort values of one property is the parameter `values`.
mod Keys
use httk_data.Prelude.{
  ℕ, Bool, true, false, Option, none, some, List, [], ◌∷◌, ◌++◌, map, if◌then◌else◌,
}
use httk_data.Prelude.Comparison.{Comparison, numbers, lists, pairs}
pub use Keys.{Part, missing, ascending, descending, parts}

abbrev pub Text : Type 0
Text = List ℕ

-- The names and positions of a `_Stream`.
pub record Place : Type 0 where
  pub source : Text
  pub source_index : ℕ
  pub public_id_prefix : Text
  pub backing_name : Text
  pub backing_index : ℕ

-- The values that a candidate stream's searcher returns for a row.
pub record CandidateRow (V : Type 0) : Type 0 where
  pub sid : ℕ
  pub content_id : Text
  pub sort_values : List (Option V)
  pub timestamp : Option ℕ

pub record Candidate (V : Type 0) : Type 0 where
  pub place : Place
  pub row : CandidateRow V

pub record StoredEntryOrigin : Type 0 where
  pub source : Text
  pub source_index : ℕ
  pub backing : Text
  pub content_id : Text

module _ {V : Type 0} where
  abbrev pub public_id : Candidate V → Text
  public_id c = c.place.public_id_prefix ++ c.row.content_id

  abbrev pub origin : Candidate V → StoredEntryOrigin
  origin c = record {
    source = c.place.source;
    source_index = c.place.source_index;
    backing = c.place.backing_name;
    content_id = c.row.content_id;
  }

  abbrev sort_part : Option V → Bool → Part V
  sort_part none down = missing
  sort_part (some v) down = if down then descending v else ascending v

  -- One part for each sort key; `sort_values` has a value for each.
  abbrev sort_parts : List (Option V) → List (Text × Bool) → List (Part V)
  sort_parts (v ∷ vs) ((name, down) ∷ sort) = sort_part v down ∷ sort_parts vs sort
  sort_parts [] sort = []
  sort_parts (v ∷ vs) [] = []

  abbrev pub sort_key : List (Text × Bool) → Candidate V → List (Part V) × (Text × (ℕ × Text))
  sort_key sort c =
      let names : Text × (ℕ × Text) = (public_id c, (c.place.source_index, c.place.backing_name)) in
      (sort_parts c.row.sort_values sort, names)

abbrev pub texts : Comparison Text
texts = lists numbers

-- The order of Python's tuples on the sort keys.
abbrev pub keys : {V : Type 0} → Comparison V → Comparison (List (Part V) × (Text × (ℕ × Text)))
keys values = pairs (lists (parts values)) (pairs texts (pairs numbers texts))
