-- ===== src/RecipePackage/Servers.antt =====
-- What the parser keeps of the servers that have no findings (src/recipe-package.ts).
use pi_recipes.Prelude.{
  append-eq-nil, ℕ, suc, ◌+◌, Text, codes, Bool, true, false, List, [], ◌∷◌, Option, none, some,
  map, length, ◌≡◌, refl, sym, ap, ◌∙◌, subst, arith, if◌then◌else◌,
}
use pi_recipes.Prelude.Texts.{has}
use pi_recipes.Json.{Json, arr, obj, Items, nil, item, Fields, get}
use pi_recipes.McpPolicy.{normalize_mcp_server_id}
use pi_recipes.RecipeAgent.Mcp.{has_collision}
use pi_recipes.RecipePackage.{parse_servers, read_server, parse_mcp_config, string_value}
use pi_recipes.RecipePackage.Selection.{RecipePackageMcpServer}
use pi_recipes.RecipePackage.Shape.{
  server_list_findings, id_findings, ids_after, normalized_after, mcp_source_shape_findings,
  servers_findings, finding_if, server_duplicate, server_collides, tools_findings,
}

abbrev pub count_items : Items → ℕ
count_items nil = 0
count_items (item _ xs) = suc (count_items xs)

abbrev pub ids_of : List RecipePackageMcpServer → List Text
ids_of servers = map (λ server. server.id) servers

new_id :
    (known collides : Bool) (i : Text)
    → (if known then server_duplicate i ∷ [] else finding_if collides (server_collides i)) ≡ []
    → (known ≡ false) × (collides ≡ false)
new_id false false i e = (refl, refl)
new_id false true i e = cc
new_id true collides i e = cc

id_findings-nil :
    (lower : Text → Text) (index : ℕ) (ids normalized_ids : List Text) (id : Option Text)
    → id_findings lower index ids normalized_ids id ≡ []
    → (i : Text) × (id ≡ some i)
      × (has i ids ≡ false)
      × (has (normalize_mcp_server_id lower i) normalized_ids ≡ false)
unfolding id_findings
id_findings-nil lower index ids normalized_ids none e = cc
id_findings-nil lower index ids normalized_ids (some i) e =
    let both = new_id (has i ids) (has (normalize_mcp_server_id lower i) normalized_ids) i e in
    (i, refl, both.0, both.1)

-- A server whose id is new is read, and the rest after it.
parse_servers-new :
    (seen : List Text) (server : Fields) (rest : Items) (i : Text)
    → string_value (get (codes "id") server) ≡ some i
    → has i seen ≡ false
    → parse_servers seen (item (obj server) rest)
      ≡ read_server i server ∷ parse_servers (i ∷ seen) rest
unfolding parse_servers
parse_servers-new seen server rest i e new = rw (parse_servers, e, new) refl

-- What the parser keeps of a list of servers, after the ids that it has seen.
record IsKept (lower : Text → Text) (ids normalized_ids : List Text) (items : Items) : Type 0 where
  count : length (parse_servers ids items) ≡ count_items items
  apart : has_collision lower normalized_ids (ids_of (parse_servers ids items)) ≡ false

module _ (lower : Text → Text) where
  new-IsKept :
      (ids normalized_ids : List Text) (server : Fields) (rest : Items) (i : Text)
      → string_value (get (codes "id") server) ≡ some i
      → has i ids ≡ false
      → has (normalize_mcp_server_id lower i) normalized_ids ≡ false
      → IsKept lower (i ∷ ids) (normalize_mcp_server_id lower i ∷ normalized_ids) rest
      → IsKept lower ids normalized_ids (item (obj server) rest)
  unfolding has_collision
  new-IsKept ids normalized_ids server rest i e new apart kept =
      let read = parse_servers-new ids server rest i e new in
      record {
        count = ap length read ∙ ap suc kept.count;
        apart =
            ap (λ servers. has_collision lower normalized_ids (ids_of servers)) read
            ∙ ground (arith, apart, kept.apart);
      }

  after-IsKept :
      (ids normalized_ids : List Text) (id : Option Text) (rest : Items) (i : Text)
      → id ≡ some i
      → has i ids ≡ false
      → IsKept lower (ids_after id ids) (normalized_after lower id ids normalized_ids) rest
      → IsKept lower (i ∷ ids) (normalize_mcp_server_id lower i ∷ normalized_ids) rest
  after-IsKept ids normalized_ids none rest i e new kept = cc
  after-IsKept ids normalized_ids (some j) rest i e new kept =
      let same : j ≡ i = cc in
      let new_j : has j ids ≡ false = subst (λ k. has k ids ≡ false) (sym same) new in
      let kept_j : IsKept lower (j ∷ ids) (normalize_mcp_server_id lower j ∷ normalized_ids) rest =
        subst
          (λ b.
            IsKept lower (if b then ids else j ∷ ids)
              (if b then normalized_ids else normalize_mcp_server_id lower j ∷ normalized_ids) rest)
          new_j kept in
      subst (λ k. IsKept lower (k ∷ ids) (normalize_mcp_server_id lower k ∷ normalized_ids) rest)
        same kept_j

  server_list-IsKept :
      (index : ℕ) (ids normalized_ids : List Text) (items : Items)
      → server_list_findings lower index ids normalized_ids items ≡ []
      → IsKept lower ids normalized_ids items
  unfolding server_list_findings parse_servers has_collision
  server_list-IsKept index ids normalized_ids nil e = record { count = refl; apart = refl }
  server_list-IsKept index ids normalized_ids (item (obj server) rest) e =
      let id = string_value (get (codes "id") server) in
      let more =
        server_list_findings lower (index + 1) (ids_after id ids)
          (normalized_after lower id ids normalized_ids) rest in
      let last = append-eq-nil _ more e in
      let tools = append-eq-nil _ (tools_findings index (get (codes "tools") server)) last.0 in
      let required = append-eq-nil _ _ tools.0 in
      let first = append-eq-nil _ (id_findings lower index ids normalized_ids id) required.0 in
      let (i, found, new, apart) = id_findings-nil lower index ids normalized_ids id first.1 in
      new-IsKept ids normalized_ids server rest i found new apart (
        after-IsKept ids normalized_ids id rest i found new (
          server_list-IsKept (index + 1) (ids_after id ids)
            (normalized_after lower id ids normalized_ids) rest last.1))
  server_list-IsKept index ids normalized_ids (item (Json.null) rest) e = cc
  server_list-IsKept index ids normalized_ids (item (Json.bool b) rest) e = cc
  server_list-IsKept index ids normalized_ids (item (Json.num n) rest) e = cc
  server_list-IsKept index ids normalized_ids (item (Json.str s) rest) e = cc
  server_list-IsKept index ids normalized_ids (item (arr xs) rest) e = cc

-- No server of a manifest without findings on its `mcp` is lost: each entry of `servers` is read as a
-- server, and no two of the ids come to the same id when normalised.
pub mcp_source_shape_findings-kept :
    (lower : Text → Text) (data_object : Fields) (items : Items)
    → mcp_source_shape_findings lower (some (obj data_object)) ≡ []
    → get (codes "servers") data_object ≡ some (arr items)
    → let servers = (parse_mcp_config (some (obj data_object))).servers in
      (length servers ≡ count_items items) × (has_collision lower [] (ids_of servers) ≡ false)
unfolding mcp_source_shape_findings servers_findings parse_mcp_config
mcp_source_shape_findings-kept lower data_object items clean e =
    let last = append-eq-nil _ (servers_findings lower (get (codes "servers") data_object)) clean in
    let listed : server_list_findings lower 0 [] [] items ≡ [] =
      sym (ap (servers_findings lower) e) ∙ last.1 in
    let kept = server_list-IsKept lower 0 [] [] items listed in rw e (kept.count, kept.apart)
