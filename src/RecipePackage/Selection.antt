-- ===== src/RecipePackage/Selection.antt =====
-- What is read of tool selections, and of values of a manifest (src/recipe-package.ts).
use pi_recipes.Prelude.{
  Text, codes, text_eq, Bool, true, false, not, ◌&&◌, ◌||◌, List, [], ◌∷◌, Option, none, some, any,
  all, if◌then◌else◌, ◌==◌,
}
use pi_recipes.Prelude.Texts.{trim, truthy}
use pi_recipes.Json.{Json, str, arr, obj, Items, nil, item, Fields, end, get}
use pi_recipes.McpPolicy.{ToolSelection, or_none}

-- A selection, and whether its source was malformed (the mark INVALID_MCP_TOOL_SELECTION).
pub record ParsedRecipeMcpToolSelection : Type 0 where
  pub selection : ToolSelection
  pub is_invalid : Bool

pub record RecipePackageMcpServer : Type 0 where
  pub id : Text
  pub required : Bool
  pub tools : ParsedRecipeMcpToolSelection

pub record RecipePackageMcpConfig : Type 0 where
  pub manifests : List Text
  pub servers : List RecipePackageMcpServer

pub record RecipePackageChannel : Type 0 where
  pub provider : Text
  pub commands : Option Items
  pub require_reply : Option Bool

pub record RecipePythonRuntimeRequirement : Type 0 where
  pub project : Text
  pub lockfile : Text
  pub version : Option Text
  pub imports : List Text

pub record RecipeSystemPackageRequirement : Type 0 where
  pub id : Text
  pub version : Text

pub record RecipeRuntimeRequirements : Type 0 where
  pub python : Option RecipePythonRuntimeRequirement
  pub packages : List RecipeSystemPackageRequirement

-- The lists of a manifest, and which of them it declares.
pub record RecipePackageResources : Type 0 where
  pub agents : List Text
  pub extensions : List Text
  pub skills : List Text
  pub prompts : List Text

pub record ResourceDeclarations : Type 0 where
  pub declares_agents : Bool
  pub declares_extensions : Bool
  pub declares_skills : Bool
  pub declares_prompts : Bool

pub record RecipePackageManifest : Type 0 where
  pub name : Text
  pub version : Text
  pub description : Option Text
  pub resources : RecipePackageResources
  pub resource_declarations : ResourceDeclarations
  pub channels : List RecipePackageChannel
  pub mcp : RecipePackageMcpConfig
  pub runtime : RecipeRuntimeRequirements

abbrev pub item_texts : Items → List Text
item_texts nil = []
item_texts (item (str s) xs) = s ∷ item_texts xs
item_texts (item _ xs) = item_texts xs

abbrev pub string_array : Option Json → List Text
string_array (some (arr items)) = item_texts items
string_array _ = []

-- typeof value === "object" && value && !Array.isArray(value)
abbrev pub is_object : Json → Bool
is_object (obj o) = true
is_object _ = false

abbrev pub as_record : Json → Fields
as_record (obj o) = o
as_record _ = end

abbrev pub record_of : Option Json → Fields
record_of (some (obj o)) = o
record_of _ = end

-- Object.hasOwn(data, key)
abbrev pub has_own : Text → Fields → Bool
has_own key o = elim (get key o) [ none ↦ false | some _ ↦ true ]

abbrev list_if_own : Option Json → Option (List Text)
list_if_own none = none
list_if_own (some v) = some (string_array (some v))

abbrev pub all_texts : Items → Bool
all_texts nil = true
all_texts (item (str s) xs) = all_texts xs
all_texts (item _ xs) = false

-- A value that is there but is no array of texts.
abbrev pub is_malformed_array : Option Json → Bool
is_malformed_array none = false
is_malformed_array (some (arr items)) = not (all_texts items)
is_malformed_array (some _) = true

unfoldable pub parse_recipe_mcp_tool_selection : Json → ParsedRecipeMcpToolSelection
parse_recipe_mcp_tool_selection value =
    let include = get (codes "include") (as_record value) in
    let exclude = get (codes "exclude") (as_record value) in
    record {
      selection = record { include = list_if_own include; exclude = list_if_own exclude };
      is_invalid =
          not (is_object value) || (is_malformed_array include || is_malformed_array exclude);
    }

abbrev is_include_selector : Text → Bool
is_include_selector selector =
    let value = trim selector in
    truthy value && (text_eq value (codes "*") || not (any (λ c. c == b'*') value))

abbrev is_exclude_selector : Text → Bool
is_exclude_selector selector =
    let value = trim selector in truthy value && not (any (λ c. c == b'*') value)

unfoldable pub is_valid_recipe_mcp_tool_selection : ParsedRecipeMcpToolSelection → Bool
is_valid_recipe_mcp_tool_selection parsed =
    if parsed.is_invalid
    then false
    else all is_include_selector (or_none parsed.selection.include)
      && all is_exclude_selector (or_none parsed.selection.exclude)
