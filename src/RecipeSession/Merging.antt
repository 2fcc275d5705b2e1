-- ===== src/RecipeSession/Merging.antt =====
-- Merging of session settings, key by key and in depth (src/recipe-session.ts).
use pi_recipes.Prelude.{
  Text, text_eq, text_eq_iff, Bool, true, false, sym, subst, if◌then◌else◌, Option, none, some, ◌≡◌,
  refl, arith,
}
use pi_recipes.Json.{
  Json, null, bool, num, str, arr, obj, Fields, end, field, get, put, get-put, HasUniqueKeys,
}
use pi_recipes.RecipeSession.{merge_objects, merge_value}

-- What a key holds, of what the base and the overlay hold at it.
abbrev pub merge_options : Option Json → Option Json → Option Json
merge_options base none = base
merge_options base (some value) = some (merge_value base value)

-- One level of the merge, in the terms of the code.
get-merge_objects :
    (key : Text) (base overlay : Fields)
    → HasUniqueKeys overlay
    → get key (merge_objects base overlay) ≡ merge_options (get key base) (get key overlay)
unfolding merge_objects get
get-merge_objects key base end u = refl
get-merge_objects key base (field k v overlay) (fresh, u) =
    let value = merge_value (get k base) v in
    ground (
      arith,
      get-merge_objects key (put k value base) overlay u,
      get-put k key value base,
      text_eq_iff k key,
    )

abbrev pub are_objects : Option Json → Json → Bool
are_objects (some (obj old)) (obj value) = true
are_objects _ _ = false

-- How a value of the base and one of the overlay merge, where `none` is a missing one: two objects
-- merge key by key, and otherwise the overlay's value stands if there is one, and the base's if not.
pub data Merges : Option Json → Option Json → Option Json → Type 0 where
  kept : (base : Option Json) → Merges base none base
  replaced :
      (base : Option Json) (value : Json)
      → are_objects base value ≡ false
      → Merges base (some value) (some value)
  in_depth :
      (base overlay new : Fields)
      → ((key : Text) → Merges (get key base) (get key overlay) (get key new))
      → Merges (some (obj base)) (some (obj overlay)) (some (obj new))

-- Each key once, in the object and in those that its keys hold.
abbrev mutual
  pub IsUnique : Json → Type 0
  IsUnique (obj o) = AreUnique o
  IsUnique _ = Unit

  pub AreUnique : Fields → Type 0
  AreUnique end = Unit
  AreUnique (field k v o) = (get k o ≡ none) × (IsUnique v × AreUnique o)

AreUnique-HasUniqueKeys : (o : Fields) → AreUnique o → HasUniqueKeys o
AreUnique-HasUniqueKeys end u = tt
AreUnique-HasUniqueKeys (field k v o) (fresh, (_, u)) = (fresh, AreUnique-HasUniqueKeys o u)

at_key :
    (base : Option Json) (key k : Text) (v : Json) (found : Option Json) (same : Bool)
    → Merges base (some v) (merge_options base (some v))
    → Merges base found (merge_options base found)
    → Merges base
        (if same then some v else found)
        (merge_options base (if same then some v else found))
at_key base key k v found true here there = here
at_key base key k v found false here there = there

mutual
  unfolding merge_value get

  merge_value-Merges :
      (base : Option Json) (value : Json)
      → IsUnique value
      → Merges base (some value) (some (merge_value base value))
  merge_value-Merges (some (obj old)) (obj value) u =
      in_depth old value (merge_objects old value) λ key.
        subst (Merges (get key old) (get key value))
          (sym (get-merge_objects key old value (AreUnique-HasUniqueKeys value u)))
          (get-Merges (get key old) key value u)
  merge_value-Merges none value u = replaced none value refl
  merge_value-Merges (some null) value u = replaced _ value refl
  merge_value-Merges (some (bool _)) value u = replaced _ value refl
  merge_value-Merges (some (num _)) value u = replaced _ value refl
  merge_value-Merges (some (str _)) value u = replaced _ value refl
  merge_value-Merges (some (arr _)) value u = replaced _ value refl
  merge_value-Merges (some (obj old)) value u = replaced _ value refl

  get-Merges :
      (base : Option Json) (key : Text) (overlay : Fields)
      → AreUnique overlay
      → Merges base (get key overlay) (merge_options base (get key overlay))
  get-Merges base key end u = kept base
  get-Merges base key (field k v o) (_, (here, later)) =
      at_key base key k v (get key o) (text_eq k key) (merge_value-Merges base v here)
        (get-Merges base key o later)

-- The settings of an agent are merged in depth: at each key where the base and the overlay both hold
-- an object, the two merge in the same way, key by key, and at every other key the overlay's value
-- stands if it has one and the base's if it has none; where in the overlay, and in the objects in it,
-- no object holds a key twice.
pub merge_objects-Merges :
    (base overlay : Fields)
    → AreUnique overlay
    → Merges (some (obj base)) (some (obj overlay)) (some (obj (merge_objects base overlay)))
unfolding merge_value
merge_objects-Merges base overlay u = merge_value-Merges (some (obj base)) (obj overlay) u
