-- ===== src/RecipePackage.antt =====
-- The package manifest of a recipe (src/recipe-package.ts): what is read of the `pi` block of a
-- package.json that is parsed already.
pub mod Selection
pub mod Shape
pub mod Servers
mod Tests
use pi_recipes.Prelude.{
  Text, codes, text_eq, Bool, true, false, not, ◌&&◌, ◌||◌, List, [], ◌∷◌, Option, none, some, any,
  all, map, if◌then◌else◌, ◌==◌,
}
use pi_recipes.Prelude.Texts.{trim, truthy, has}
use pi_recipes.Json.{Json, bool, str, arr, obj, Items, nil, item, Fields, end, get}
use pi_recipes.McpPolicy.{ToolSelection, or_none}
use pi_recipes.RecipePackage.Selection.{
  RecipePackageMcpServer, RecipePackageMcpConfig, RecipePackageChannel,
  RecipePythonRuntimeRequirement, RecipeSystemPackageRequirement, RecipeRuntimeRequirements,
  RecipePackageManifest, string_array, as_record, record_of, has_own,
  parse_recipe_mcp_tool_selection,
}

abbrev slashes : Text → Text
slashes [] = []
slashes (c ∷ s) = (if c == b'\\' then b'/' else c) ∷ slashes s

-- path.replace(/\\/g, "/").replace(/^\.\//, "")
unfoldable pub normalize_resource_path : Text → Text
normalize_resource_path path = elim (slashes path) [
  | [] ↦ []
  | c ∷ rest ↦ elim rest [
    | [] ↦ c ∷ []
    | d ∷ tail ↦ if c == b'.' && d == b'/' then tail else c ∷ d ∷ tail
  ]
]

unfoldable pub string_value : Option Json → Option Text
string_value (some (str s)) = let value = trim s in if truthy value then some value else none
string_value _ = none

abbrev pub items_of : Option Json → Items
items_of (some (arr items)) = items
items_of _ = nil

abbrev pub empty_object : Json
empty_object = obj end

abbrev pub or_json : Option Json → Json → Json
or_json none default = default
or_json (some v) default = v

abbrev pub is_true : Option Json → Bool
is_true (some (bool b)) = b
is_true _ = false

abbrev pub read_server : Text → Fields → RecipePackageMcpServer
read_server id server = record {
  id = id;
  required = is_true (get (codes "required") server);
  tools = parse_recipe_mcp_tool_selection (or_json (get (codes "tools") server) empty_object);
}

-- The loop of `parseMcpConfig`, with the ids that it has seen.
unfoldable pub parse_servers : List Text → Items → List RecipePackageMcpServer
parse_servers seen nil = []
parse_servers seen (item (obj server) rest) = elim (string_value (get (codes "id") server)) [
  | none ↦ parse_servers seen rest
  | some id ↦
      let more = parse_servers (id ∷ seen) rest in
      let others = parse_servers seen rest in
      if has id seen then others else read_server id server ∷ more
]
parse_servers seen (item _ rest) = parse_servers seen rest

unfoldable pub parse_mcp_config : Option Json → RecipePackageMcpConfig
parse_mcp_config value =
    let data_object = record_of value in
    record {
      manifests = map normalize_resource_path (string_array (get (codes "manifests") data_object));
      servers = parse_servers [] (items_of (get (codes "servers") data_object));
    }

abbrev items_if_array : Option Json → Option Items
items_if_array (some (arr items)) = some items
items_if_array _ = none

abbrev bool_if_boolean : Option Json → Option Bool
bool_if_boolean (some (bool b)) = some b
bool_if_boolean _ = none

unfoldable pub parse_channels : List Text → Items → List RecipePackageChannel
parse_channels seen nil = []
parse_channels seen (item raw rest) =
    let channel = as_record raw in
    elim (string_value (get (codes "provider") channel)) [
      | none ↦ parse_channels seen rest
      | some provider ↦
          let more = parse_channels (provider ∷ seen) rest in
          let others = parse_channels seen rest in
          if has provider seen
          then others
          else record {
            provider = provider;
            commands = items_if_array (get (codes "commands") channel);
            require_reply = bool_if_boolean (get (codes "requireReply") channel);
          }
            ∷ more
    ]

parse_python : Fields → Option RecipePythonRuntimeRequirement
parse_python python = elim (string_value (get (codes "project") python)) [
  | none ↦ none
  | some project ↦ elim (string_value (get (codes "lockfile") python)) [
    | none ↦ none
    | some lockfile ↦ some (record {
      project = normalize_resource_path project;
      lockfile = normalize_resource_path lockfile;
      version = string_value (get (codes "version") python);
      imports = map trim (string_array (get (codes "imports") python));
    })
  ]
]

parse_packages : Items → List RecipeSystemPackageRequirement
parse_packages nil = []
parse_packages (item raw rest) = elim (string_value (get (codes "id") (as_record raw))) [
  | none ↦ parse_packages rest
  | some id ↦ elim (string_value (get (codes "version") (as_record raw))) [
    | none ↦ parse_packages rest
    | some version ↦ record { id = id; version = version } ∷ parse_packages rest
  ]
]

parse_runtime_requirements : Option Json → RecipeRuntimeRequirements
parse_runtime_requirements value =
    let runtime = record_of value in
    record {
      python = parse_python (record_of (get (codes "python") runtime));
      packages =
          parse_packages
            (items_of (get (codes "packages") (record_of (get (codes "system") runtime))));
    }

abbrev or_text : Option Text → Text → Text
or_text none default = default
or_text (some s) default = s

-- What `readPiPackageManifest` makes of a package.json whose `pi` is an object.
read_pi_package_manifest : Fields → Fields → RecipePackageManifest
read_pi_package_manifest raw pi =
    let paths : Text → List Text = λ key. map normalize_resource_path (string_array (get key pi)) in
    record {
      name = or_text (string_value (get (codes "name") raw)) [];
      version = or_text (string_value (get (codes "version") raw)) (codes "0.0.0");
      description = string_value (get (codes "description") raw);
      resources = record {
        agents = paths (codes "agents");
        extensions = paths (codes "extensions");
        skills = paths (codes "skills");
        prompts = paths (codes "prompts");
      };
      resource_declarations = record {
        declares_agents = has_own (codes "agents") pi;
        declares_extensions = has_own (codes "extensions") pi;
        declares_skills = has_own (codes "skills") pi;
        declares_prompts = has_own (codes "prompts") pi;
      };
      channels = parse_channels [] (items_of (get (codes "channels") pi));
      mcp = parse_mcp_config (get (codes "mcp") pi);
      runtime = parse_runtime_requirements (get (codes "runtime") pi);
    }
