-- ===== src/RecipeModel/Values.antt =====
-- The checks of single values (src/recipe-model.ts). A value that is undefined is `none`.
use pi_recipes.Prelude.{
  ℕ, Text, codes, text_eq, Bool, true, false, not, List, [], ◌∷◌, Option, none, some, any, keep,
  if◌then◌else◌, ltb,
}
use pi_recipes.Prelude.Results.{Result, returns, throws, ◌>>=◌}
use pi_recipes.Prelude.Texts.{trim, truthy, given_trimmed}
use pi_recipes.Json.{
  Json, num, str, arr, obj, Number, natural, between, negative, not_finite, Items, nil, item,
  Fields, keys,
}
use pi_recipes.RecipeModel.Config.{
  ModelError, expected_object, expected_string, expected_integer, expected_string_array,
  expected_number, unsupported_value, unsupported_keys,
}

abbrev pub thinking_levels : List Text
thinking_levels =
    codes "off"
    ∷ codes "minimal"
    ∷ codes "low"
    ∷ codes "medium"
    ∷ codes "high"
    ∷ codes "xhigh"
    ∷ codes "max"
    ∷ []

-- `isRecord`, or the error.
unfoldable pub expect_object : Text → Json → Result ModelError Fields
expect_object what (obj o) = returns o
expect_object what _ = throws (expected_object what)

unfoldable pub optional_string : Text → Option Json → Result ModelError (Option Text)
optional_string key none = returns none
optional_string key (some (str s)) = returns (given_trimmed (some s))
optional_string key (some _) = throws (expected_string key)

-- Number.isFinite(value) && value >= min
unfoldable pub is_at_least : Number → ℕ → Bool
is_at_least (natural n) min = not (ltb n min)
is_at_least (between n _) min = not (ltb n min)
is_at_least (negative _) min = false
is_at_least (not_finite _) min = false

unfoldable pub optional_number : Text → Option Json → ℕ → Result ModelError (Option Json)
optional_number key none min = returns none
optional_number key (some (num n)) min =
    if is_at_least n min then returns (some (num n)) else throws (expected_number key min)
optional_number key (some _) min = throws (expected_number key min)

-- Number.isInteger, of a number from the range
abbrev pub is_integer : Option Json → Bool
is_integer (some (num (natural n))) = true
is_integer _ = false

unfoldable pub optional_integer : Text → Option Json → ℕ → Result ModelError (Option Json)
optional_integer key value min = do
  parsed ← optional_number key value min
  elim parsed [
    | none ↦ returns none
    | some n ↦ if is_integer (some n) then returns (some n) else throws (expected_integer key)
  ]

-- The trimmed texts, if all items are texts that are not blank.
unfoldable pub trimmed_texts : Items → Option (List Text)
trimmed_texts nil = some []
trimmed_texts (item (str s) rest) = elim (trimmed_texts rest) [
  | none ↦ none
  | some texts ↦ if truthy (trim s) then some (trim s ∷ texts) else none
]
trimmed_texts (item _ rest) = none

unfoldable pub optional_string_array : Text → Option Json → Result ModelError (Option (List Text))
optional_string_array key none = returns none
optional_string_array key (some (arr items)) = elim (trimmed_texts items) [
  | none ↦ throws (expected_string_array key)
  | some texts ↦ returns (some texts)
]
optional_string_array key (some _) = throws (expected_string_array key)

unfoldable pub parse_thinking_level : Text → Option Json → Result ModelError (Option Text)
parse_thinking_level key none = returns none
parse_thinking_level key (some (str s)) =
    if any (text_eq s) thinking_levels then returns (some s) else throws (unsupported_value key)
parse_thinking_level key (some _) = throws (unsupported_value key)

abbrev pub unknown_keys : Fields → List Text → List Text
unknown_keys o allowed = keep (λ k. not (any (text_eq k) allowed)) (keys o)

unfoldable pub assert_known_keys : Text → Fields → List Text → Result ModelError (Unit {0})
assert_known_keys prefix o allowed = elim (unknown_keys o allowed) [
  | [] ↦ returns tt
  | k ∷ rest ↦ throws (unsupported_keys prefix (k ∷ rest))
]
