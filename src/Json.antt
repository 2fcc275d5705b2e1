-- ===== src/Json.antt =====
-- The values of JSON.parse, and the object operations that the program uses. A number or a boolean
-- is kept apart from texts.
use pi_recipes.Prelude.{
  ℕ, Text, List, [], ◌∷◌, text_eq, text_eq_iff, Bool, ◌≡◌, refl, Option, none, some, arith,
  if◌then◌else◌,
}

-- A number: a natural one (or -0), one that lies strictly between a natural number and the next, one
-- below 0, and an infinity or NaN. All but the naturals carry their spelling.
pub data Number : Type 0 where
  natural : ℕ → Number
  between : ℕ → Text → Number
  negative not_finite : Text → Number

mutual
  pub data Json : Type 0 where
    null : Json
    bool : Bool → Json
    num : Number → Json
    str : Text → Json
    arr : Items → Json
    obj : Fields → Json

  pub data Items : Type 0 where
    nil : Items
    item : Json → Items → Items

  pub data Fields : Type 0 where
    end : Fields
    field : Text → Json → Fields → Fields

-- o[k]; `none` is undefined.
unfoldable pub get : Text → Fields → Option Json
get k end = none
get k (field j v o) = if text_eq j k then some v else get k o

-- Setting a key keeps its place.
unfoldable pub put : Text → Json → Fields → Fields
put k v end = field k v end
put k v (field j w o) = if text_eq j k then field k v o else field j w (put k v o)

unfoldable pub delete : Text → Fields → Fields
delete k end = end
delete k (field j w o) = if text_eq j k then delete k o else field j w (delete k o)

pub get-put :
    (k j : Text) (v : Json) (o : Fields)
    → get j (put k v o) ≡ (if text_eq k j then some v else get j o)
unfolding get put
get-put k j v end = refl
get-put k j v (field i w o) =
    ground (arith, text_eq_iff k j, text_eq_iff i k, text_eq_iff i j, get-put k j v o)

pub get-delete :
    (k j : Text) (o : Fields) → get j (delete k o) ≡ (if text_eq k j then none else get j o)
unfolding get delete
get-delete k j end = ground arith
get-delete k j (field i w o) =
    ground (arith, text_eq_iff k j, text_eq_iff i k, text_eq_iff i j, get-delete k j o)

-- Object.keys(o)
unfoldable pub keys : Fields → List Text
keys end = []
keys (field k v o) = k ∷ keys o

-- { ...base, ...o }
unfoldable pub spread : Fields → Fields → Fields
spread base end = base
spread base (field k v o) = spread (put k v base) o

-- Each key once, as in every object of the language.
abbrev pub HasUniqueKeys : Fields → Type 0
HasUniqueKeys end = Unit
HasUniqueKeys (field k v o) = (get k o ≡ none) × HasUniqueKeys o

abbrev pub or_value : Option Json → Option Json → Option Json
or_value none other = other
or_value (some v) other = some v

pub get-spread :
    (j : Text) (o base : Fields)
    → HasUniqueKeys o
    → get j (spread base o) ≡ or_value (get j o) (get j base)
unfolding get spread
get-spread j end base u = refl
get-spread j (field k v o) base (fresh, u) =
    ground (arith, get-spread j o (put k v base) u, get-put k j v base, text_eq_iff k j)

pub put-HasUniqueKeys :
    (k : Text) (v : Json) (o : Fields) → HasUniqueKeys o → HasUniqueKeys (put k v o)
unfolding put get
put-HasUniqueKeys k v end u = (refl, tt)
put-HasUniqueKeys k v (field j w o) (fresh, u) =
    ground (arith, put-HasUniqueKeys k v o u, get-put k j v o, text_eq_iff j k, text_eq_iff k j)

pub spread-HasUniqueKeys : (base o : Fields) → HasUniqueKeys base → HasUniqueKeys (spread base o)
unfolding spread
spread-HasUniqueKeys base end u = u
spread-HasUniqueKeys base (field k v o) u =
    spread-HasUniqueKeys (put k v base) o (put-HasUniqueKeys k v base u)

pub ruleset json_laws = (get-put, get-delete)
