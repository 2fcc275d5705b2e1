-- ===== src/RecipePackage/Shape.antt =====
-- The findings on the shape of a package.json's `pi` block (src/recipe-package.ts). A finding keeps
-- what its message names; `lower` stands for toLowerCase.
use pi_recipes.Prelude.{
  ℕ, ◌+◌, Text, codes, Bool, true, false, not, ◌&&◌, ◌||◌, List, [], ◌∷◌, ◌++◌, Option, none, some,
  keep, map, length, if◌then◌else◌, ◌==◌,
}
use pi_recipes.Prelude.Texts.{trim, truthy, has, distinct_texts}
use pi_recipes.Json.{Json, bool, str, arr, obj, Items, nil, item, Fields, get, keys}
use pi_recipes.McpPolicy.{normalize_mcp_server_id}
use pi_recipes.RecipePackage.{items_of, string_value}
use pi_recipes.RecipePackage.Selection.{string_array, item_texts, record_of, all_texts}

pub data ShapeFinding : Type 0 where
  unknown_key resource_invalid resource_duplicate : Text → ShapeFinding
  channels_not_array : ShapeFinding
  channel_not_object channel_reply_not_boolean channel_commands_invalid : ℕ → ShapeFinding
  channel_unknown_fields : ℕ → List Text → ShapeFinding
  channel_without_provider : ℕ → ShapeFinding
  channel_duplicate channel_without_dependency : Text → ShapeFinding
  runtime_not_object python_not_object system_not_object packages_not_array : ShapeFinding
  runtime_unknown_field python_unknown_field system_unknown_field : Text → ShapeFinding
  python_path_missing : Text → ShapeFinding
  python_version_invalid python_imports_invalid : ShapeFinding
  package_not_object package_incomplete : ℕ → ShapeFinding
  mcp_not_object manifests_invalid manifests_duplicate servers_not_array : ShapeFinding
  mcp_unknown_fields : List Text → ShapeFinding
  server_not_object server_without_id server_required_not_boolean tools_not_object :
      ℕ → ShapeFinding
  server_unknown_fields tools_unknown_fields : ℕ → List Text → ShapeFinding
  server_duplicate server_collides : Text → ShapeFinding

abbrev pub finding_if : Bool → ShapeFinding → List ShapeFinding
finding_if true f = f ∷ []
finding_if false f = []

abbrev pub unknown_of : List Text → Fields → List Text
unknown_of known o = keep (λ key. not (has key known)) (keys o)

abbrev each_unknown : (Text → ShapeFinding) → List Text → List ShapeFinding
each_unknown wrap [] = []
each_unknown wrap (key ∷ rest) = wrap key ∷ each_unknown wrap rest

abbrev pub all_unknown : (List Text → ShapeFinding) → List Text → List ShapeFinding
all_unknown wrap [] = []
all_unknown wrap (key ∷ rest) = wrap (key ∷ rest) ∷ []

-- Every item is a text that is not blank.
abbrev pub all_filled : Items → Bool
all_filled nil = true
all_filled (item (str s) xs) = truthy (trim s) && all_filled xs
all_filled (item _ xs) = false

abbrev repeats : List Text → Bool
repeats texts = not (length (distinct_texts [] texts) == length texts)

abbrev pi_keys : List Text
pi_keys =
    codes "agents"
    ∷ codes "extensions"
    ∷ codes "skills"
    ∷ codes "prompts"
    ∷ codes "channels"
    ∷ codes "mcp"
    ∷ codes "runtime"
    ∷ []

unfoldable pub resource_findings : Text → Option Json → List ShapeFinding
resource_findings key none = []
resource_findings key (some (arr items)) =
    if not (all_filled items)
    then resource_invalid key ∷ []
    else finding_if (repeats (map trim (item_texts items))) (resource_duplicate key)
resource_findings key (some _) = resource_invalid key ∷ []

abbrev is_filled_text : Option Json → Bool
is_filled_text value = elim (string_value value) [ none ↦ false | some _ ↦ true ]

abbrev is_optional_boolean : Option Json → Bool
is_optional_boolean none = true
is_optional_boolean (some (bool b)) = true
is_optional_boolean (some _) = false

abbrev bad_commands : Option Json → Bool
bad_commands none = false
bad_commands (some (arr items)) = not (all_filled items) || repeats (item_texts items)
bad_commands (some _) = true

-- The provider of a channel, with those that came before.
unfoldable provider_findings : Fields → ℕ → List Text → Option Text → List ShapeFinding
provider_findings dependencies index providers none = channel_without_provider index ∷ []
provider_findings dependencies index providers (some provider) =
    finding_if (has provider providers) (channel_duplicate provider)
    ++ finding_if
        (not (
          is_filled_text
            (get (codes "@introspection-ai/recipe-channel-" ++ provider) dependencies)))
        (channel_without_dependency provider)

abbrev providers_after : Option Text → List Text → List Text
providers_after none providers = providers
providers_after (some provider) providers = provider ∷ providers

unfoldable channel_list_findings : Fields → ℕ → List Text → Items → List ShapeFinding
channel_list_findings dependencies index providers nil = []
channel_list_findings dependencies index providers (item (obj channel) rest) =
    let provider = string_value (get (codes "provider") channel) in
    finding_if (not (is_optional_boolean (get (codes "requireReply") channel)))
      (channel_reply_not_boolean index)
    ++ finding_if (bad_commands (get (codes "commands") channel)) (channel_commands_invalid index)
    ++ all_unknown (channel_unknown_fields index)
        (unknown_of (codes "provider" ∷ codes "commands" ∷ codes "requireReply" ∷ []) channel)
    ++ provider_findings dependencies index providers provider
    ++ channel_list_findings dependencies (index + 1) (providers_after provider providers) rest
channel_list_findings dependencies index providers (item _ rest) =
    channel_not_object index ∷ channel_list_findings dependencies (index + 1) providers rest

unfoldable channel_source_shape_findings : Fields → Option Json → List ShapeFinding
channel_source_shape_findings dependencies none = []
channel_source_shape_findings dependencies (some (arr items)) =
    channel_list_findings dependencies 0 [] items
channel_source_shape_findings dependencies (some _) = channels_not_array ∷ []

abbrev bad_imports : Option Json → Bool
bad_imports none = false
bad_imports (some (arr items)) = not (all_filled items)
bad_imports (some _) = true

abbrev bad_version : Option Json → Bool
bad_version none = false
bad_version (some value) = not (is_filled_text (some value))

unfoldable python_findings : Option Json → List ShapeFinding
python_findings none = []
python_findings (some (obj python)) =
    each_unknown python_unknown_field (
      unknown_of (codes "project" ∷ codes "lockfile" ∷ codes "version" ∷ codes "imports" ∷ [])
        python)
    ++ finding_if (not (is_filled_text (get (codes "project") python)))
        (python_path_missing (codes "project"))
    ++ finding_if (not (is_filled_text (get (codes "lockfile") python)))
        (python_path_missing (codes "lockfile"))
    ++ finding_if (bad_version (get (codes "version") python)) python_version_invalid
    ++ finding_if (bad_imports (get (codes "imports") python)) python_imports_invalid
python_findings (some _) = python_not_object ∷ []

unfoldable package_list_findings : ℕ → Items → List ShapeFinding
package_list_findings index nil = []
package_list_findings index (item (obj entry) rest) =
    finding_if
      (not (is_filled_text (get (codes "id") entry))
        || not (is_filled_text (get (codes "version") entry)))
      (package_incomplete index)
    ++ package_list_findings (index + 1) rest
package_list_findings index (item _ rest) =
    package_not_object index ∷ package_list_findings (index + 1) rest

abbrev packages_findings : Option Json → List ShapeFinding
packages_findings (some (arr items)) = package_list_findings 0 items
packages_findings _ = packages_not_array ∷ []

unfoldable system_findings : Option Json → List ShapeFinding
system_findings none = []
system_findings (some (obj system)) =
    each_unknown system_unknown_field (unknown_of (codes "packages" ∷ []) system)
    ++ packages_findings (get (codes "packages") system)
system_findings (some _) = system_not_object ∷ []

unfoldable runtime_source_shape_findings : Option Json → List ShapeFinding
runtime_source_shape_findings none = []
runtime_source_shape_findings (some (obj runtime)) =
    each_unknown runtime_unknown_field (unknown_of (codes "python" ∷ codes "system" ∷ []) runtime)
    ++ python_findings (get (codes "python") runtime)
    ++ system_findings (get (codes "system") runtime)
runtime_source_shape_findings (some _) = runtime_not_object ∷ []

abbrev bad_manifests : Option Json → Bool
bad_manifests none = false
bad_manifests (some (arr items)) = not (all_filled items)
bad_manifests (some _) = true

unfoldable pub manifest_findings : Option Json → List ShapeFinding
manifest_findings value =
    finding_if (bad_manifests value) manifests_invalid
    ++ finding_if (all_texts (items_of value) && repeats (map trim (string_array value)))
        manifests_duplicate

-- The id of a server, with the ids and the normalised ids that came before.
unfoldable pub id_findings :
    (Text → Text) → ℕ → List Text → List Text → Option Text → List ShapeFinding
id_findings lower index ids normalized_ids none = server_without_id index ∷ []
id_findings lower index ids normalized_ids (some id) =
    if has id ids
    then server_duplicate id ∷ []
    else finding_if (has (normalize_mcp_server_id lower id) normalized_ids) (server_collides id)

abbrev pub ids_after : Option Text → List Text → List Text
ids_after none ids = ids
ids_after (some id) ids = if has id ids then ids else id ∷ ids

abbrev pub normalized_after : (Text → Text) → Option Text → List Text → List Text → List Text
normalized_after lower none ids normalized_ids = normalized_ids
normalized_after lower (some id) ids normalized_ids =
    if has id ids then normalized_ids else normalize_mcp_server_id lower id ∷ normalized_ids

unfoldable pub tools_findings : ℕ → Option Json → List ShapeFinding
tools_findings index none = []
tools_findings index (some (obj tools)) =
    all_unknown (tools_unknown_fields index)
      (unknown_of (codes "include" ∷ codes "exclude" ∷ []) tools)
tools_findings index (some _) = tools_not_object index ∷ []

unfoldable pub server_list_findings :
    (Text → Text) → ℕ → List Text → List Text → Items → List ShapeFinding
server_list_findings lower index ids normalized_ids nil = []
server_list_findings lower index ids normalized_ids (item (obj server) rest) =
    let id = string_value (get (codes "id") server) in
    all_unknown (server_unknown_fields index)
      (unknown_of (codes "id" ∷ codes "required" ∷ codes "tools" ∷ []) server)
    ++ id_findings lower index ids normalized_ids id
    ++ finding_if (not (is_optional_boolean (get (codes "required") server)))
        (server_required_not_boolean index)
    ++ tools_findings index (get (codes "tools") server)
    ++ server_list_findings lower (index + 1) (ids_after id ids)
        (normalized_after lower id ids normalized_ids) rest
server_list_findings lower index ids normalized_ids (item _ rest) =
    server_not_object index ∷ server_list_findings lower (index + 1) ids normalized_ids rest

unfoldable pub servers_findings : (Text → Text) → Option Json → List ShapeFinding
servers_findings lower none = []
servers_findings lower (some (arr items)) = server_list_findings lower 0 [] [] items
servers_findings lower (some _) = servers_not_array ∷ []

unfoldable pub mcp_source_shape_findings : (Text → Text) → Option Json → List ShapeFinding
mcp_source_shape_findings lower none = []
mcp_source_shape_findings lower (some (obj data_object)) =
    all_unknown mcp_unknown_fields
      (unknown_of (codes "manifests" ∷ codes "servers" ∷ []) data_object)
    ++ manifest_findings (get (codes "manifests") data_object)
    ++ servers_findings lower (get (codes "servers") data_object)
mcp_source_shape_findings lower (some _) = mcp_not_object ∷ []

pub source_shape_findings : (Text → Text) → Fields → Option Json → List ShapeFinding
unfolding provider_findings channel_list_findings channel_source_shape_findings python_findings
    package_list_findings system_findings runtime_source_shape_findings
source_shape_findings lower pi dependencies =
    each_unknown unknown_key (unknown_of pi_keys pi)
    ++ resource_findings (codes "agents") (get (codes "agents") pi)
    ++ resource_findings (codes "extensions") (get (codes "extensions") pi)
    ++ resource_findings (codes "skills") (get (codes "skills") pi)
    ++ resource_findings (codes "prompts") (get (codes "prompts") pi)
    ++ channel_source_shape_findings (record_of dependencies) (get (codes "channels") pi)
    ++ mcp_source_shape_findings lower (get (codes "mcp") pi)
    ++ runtime_source_shape_findings (get (codes "runtime") pi)
