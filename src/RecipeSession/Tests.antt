-- ===== src/RecipeSession/Tests.antt =====
-- Settings of an agent over those of its base.
use pi_recipes.Prelude.{codes, true, some, refl}
use pi_recipes.Json.{obj, bool, Fields, end, field}
use pi_recipes.RecipeSession.{merge_objects}
use pi_recipes.RecipeSession.Merging.{Merges, merge_objects-Merges}

abbrev base : Fields
base = field (codes "retry") (obj (field (codes "enabled") (bool true) end)) end

abbrev overlay : Fields
overlay = field (codes "retry") (obj (field (codes "provider") (obj end) end)) end

merge_objects-Merges_example :
    Merges (some (obj base)) (some (obj overlay)) (some (obj (merge_objects base overlay)))
unfolding pi_recipes.Json.get
merge_objects-Merges_example = merge_objects-Merges base overlay (refl, ((refl, (tt, tt)), tt))
