-- ===== src/RecipeModel/Merging.antt =====
-- Merging of configurations, key by key (src/recipe-model.ts).
use pi_recipes.Prelude.{Text, true, Option, none, some, ◌≡◌, refl, ap, ◌∙◌, arith}
use pi_recipes.Json.{
  Json, Fields, end, field, get, put, spread, HasUniqueKeys, or_value, get-spread,
}
use pi_recipes.RecipeModel.Config.{RecipeAgentModelConfig, has_keys}
use pi_recipes.RecipeModel.Policy.{merge_section, merge_configs, unless_named, merge_fields, or_end}

abbrev pub SectionHasUniqueKeys : Option Fields → Type 0
SectionHasUniqueKeys none = Unit
SectionHasUniqueKeys (some o) = HasUniqueKeys o

or_end-HasUniqueKeys : (o : Option Fields) → SectionHasUniqueKeys o → HasUniqueKeys (or_end o)
or_end-HasUniqueKeys none u = tt
or_end-HasUniqueKeys (some o) u = u

has_keys-put : (k : Text) (v : Json) (o : Fields) → has_keys (put k v o) ≡ true
unfolding put
has_keys-put k v end = refl
has_keys-put k v (field j w o) = ground arith

has_keys-spread : (base o : Fields) → has_keys base ≡ true → has_keys (spread base o) ≡ true
unfolding spread
has_keys-spread base end full = full
has_keys-spread base (field k v o) full = has_keys-spread (put k v base) o (has_keys-put k v base)

-- Nothing is merged only if there is no key to merge.
or_end-merge_section :
    (base overlay : Option Fields)
    → or_end (merge_section base overlay) ≡ spread (or_end base) (or_end overlay)
unfolding merge_section spread
or_end-merge_section none none = refl
or_end-merge_section none (some end) = refl
or_end-merge_section (some end) none = refl
or_end-merge_section (some (field k v b)) none = refl
or_end-merge_section (some end) (some end) = refl
or_end-merge_section (some (field k v b)) (some end) = refl
or_end-merge_section none (some (field k v o)) =
    rw (has_keys-spread (put k v end) o (has_keys-put k v end)) refl
or_end-merge_section (some b) (some (field k v o)) =
    rw (has_keys-spread (put k v b) o (has_keys-put k v b)) refl

get-merge_section :
    (base overlay : Option Fields) (key : Text)
    → SectionHasUniqueKeys overlay
    → get key (or_end (merge_section base overlay))
      ≡ or_value (get key (or_end overlay)) (get key (or_end base))
get-merge_section base overlay key u =
    ap (get key) (or_end-merge_section base overlay)
    ∙ get-spread key (or_end overlay) (or_end base) (or_end-HasUniqueKeys overlay u)

merge_configs-unnamed :
    (base overlay : RecipeAgentModelConfig)
    → overlay.name ≡ none
    → merge_configs base overlay ≡ merge_fields base overlay
unfolding merge_configs
merge_configs-unnamed base overlay unnamed =
    ap (λ name. unless_named name overlay (merge_fields base overlay)) unnamed

-- A configuration that names no model, laid over another: the model stays the base's, and each option
-- of the request and each key of the gateway's routing is the overlay's where the overlay gives one
-- and the base's otherwise (where the overlay's objects hold each key once).
pub merge_configs_by_key :
    (base overlay : RecipeAgentModelConfig) (key : Text)
    → overlay.name ≡ none
    → SectionHasUniqueKeys overlay.stream_options
    → SectionHasUniqueKeys overlay.vercel_ai_gateway
    → let merged = merge_configs base overlay in
      (merged.name ≡ base.name)
      × (get key (or_end merged.stream_options)
          ≡ or_value
              (get key (or_end overlay.stream_options))
              (get key (or_end base.stream_options)))
      × (get key (or_end merged.vercel_ai_gateway)
          ≡ or_value
              (get key (or_end overlay.vercel_ai_gateway))
              (get key (or_end base.vercel_ai_gateway)))
merge_configs_by_key base overlay key unnamed us ug =
    rw (merge_configs-unnamed base overlay unnamed) (
      refl,
      get-merge_section base.stream_options overlay.stream_options key us,
      get-merge_section base.vercel_ai_gateway overlay.vercel_ai_gateway key ug,
    )
