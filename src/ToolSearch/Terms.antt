-- ===== src/ToolSearch/Terms.antt =====
-- The words of a text, and the names and descriptions of the properties of a schema
-- (words and schemaSearchTerms of src/tool-search.ts). A schema is a tree: an object that stands at
-- two places of it is two objects, so none is met twice.
use pi_recipes.Prelude.{
  ℕ, zero, suc, ◌+◌, ◌/◌, ◌%◌, Text, codes, text_eq, ◌||◌, List, [], ◌∷◌, ◌++◌, Option, none, some,
  keep, if◌then◌else◌, ltb,
}
use pi_recipes.Prelude.Texts.{truthy, join, is_lower, is_digit}
use pi_recipes.Json.{Json, null, bool, num, str, arr, obj, Items, nil, item, Fields, end, field}

pub cons_word : ℕ → List Text → List Text
cons_word c [] = (c ∷ []) ∷ []
cons_word c (word ∷ rest) = (c ∷ word) ∷ rest

-- The pieces between single separators: those of the source, and empty ones inside a run of
-- separators, which the filter drops.
unfoldable pub split_words : Text → List Text
unfolding cons_word
split_words [] = [] ∷ []
split_words (c ∷ s) =
    let rest = split_words s in if is_lower c || is_digit c then cons_word c rest else [] ∷ rest

unfoldable pub words : (Text → Text) → Text → List Text
words lower value = keep truthy (split_words (lower value))

-- What is pushed, in order.
pub record Found : Type 0 where
  pub names : List Text
  pub descriptions : List Text

abbrev pub nothing : Found
nothing = record { names = []; descriptions = [] }

abbrev pub both : Found → Found → Found
both a b = record { names = a.names ++ b.names; descriptions = a.descriptions ++ b.descriptions }

-- A value as the source looks at it: by `visit`, as the value of `properties`, as the value of one
-- of the other keywords, and its own description.
pub record Readings : Type 0 where
  pub visited : Found
  pub properties : Found
  pub nested : Found
  pub description : Option Text
  pub own_text : Option Text

abbrev pub plain : Option Text → Readings
plain text = record {
  visited = nothing;
  properties = nothing;
  nested = nothing;
  description = none;
  own_text = text;
}

unfoldable pub reading_of : Text → List (Text × Readings) → Readings
reading_of key [] = plain none
reading_of key ((k, r) ∷ rest) = if text_eq k key then r else reading_of key rest

-- One property: its name, its description, and what is below.
abbrev pub property : Text → Readings → Found
property name r =
    both
      (record {
        names = name ∷ [];
        descriptions = elim r.description [ none ↦ [] | some text ↦ text ∷ [] ];
      })
      r.visited

unfoldable pub properties_of : List (Text × Readings) → Found
properties_of [] = nothing
properties_of ((name, r) ∷ rest) = both (property name r) (properties_of rest)

unfoldable pub all_visited : List Readings → Found
all_visited [] = nothing
all_visited (r ∷ rest) = both r.visited (all_visited rest)

-- The decimal text of an array's index.
unfoldable pub decimal : ℕ → ℕ → Text
decimal zero n = []
decimal (suc fuel) n =
    let before = decimal fuel (n / 10) in
    if ltb n 10 then (48 + n) ∷ [] else before ++ ((48 + n % 10) ∷ [])

unfoldable pub indexed : ℕ → List Readings → List (Text × Readings)
indexed i [] = []
indexed i (r ∷ rest) = (decimal (i + 1) i, r) ∷ indexed (i + 1) rest

unfoldable pub visit_object : List (Text × Readings) → Found
visit_object o = both (reading_of (codes "properties") o).properties (
    both (reading_of (codes "allOf") o).nested (
      both (reading_of (codes "anyOf") o).nested (
        both (reading_of (codes "oneOf") o).nested (
          both (reading_of (codes "items") o).nested
            (reading_of (codes "additionalProperties") o).nested))))

abbrev pub object_readings : List (Text × Readings) → Readings
object_readings o = record {
  visited = visit_object o;
  properties = properties_of o;
  nested = visit_object o;
  description = (reading_of (codes "description") o).own_text;
  own_text = none;
}

abbrev pub array_readings : List Readings → Readings
array_readings items = record {
  visited = nothing;
  properties = properties_of (indexed 0 items);
  nested = all_visited items;
  description = none;
  own_text = none;
}

unfoldable mutual
  pub readings : Json → Readings
  readings null = plain none
  readings (bool b) = plain none
  readings (num n) = plain none
  readings (str text) = plain (some text)
  readings (arr items) = array_readings (item_readings items)
  readings (obj o) = object_readings (field_readings o)

  pub item_readings : Items → List Readings
  item_readings nil = []
  item_readings (item v rest) = readings v ∷ item_readings rest

  pub field_readings : Fields → List (Text × Readings)
  field_readings end = []
  field_readings (field key v rest) = (key, readings v) ∷ field_readings rest

pub record SearchTerms : Type 0 where
  pub property_names : Text
  pub property_descriptions : Text

unfoldable pub schema_search_terms : (Text → Text) → Option Json → SearchTerms
schema_search_terms lower schema =
    let found : Found = elim schema [ none ↦ nothing | some v ↦ (readings v).visited ] in
    record {
      property_names = lower (join (codes " ") found.names);
      property_descriptions = lower (join (codes " ") found.descriptions);
    }
