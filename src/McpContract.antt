-- ===== src/McpContract.antt =====
-- The words of the call examples that the contract of a tool shows (src/mcp-contract.ts).
pub mod Shell
pub mod Words
mod Tests
use pi_recipes.Prelude.{
  ℕ, Text, codes, Bool, true, false, ◌||◌, List, [], ◌∷◌, ◌++◌, all, any, if◌then◌else◌, ◌==◌,
}
use pi_recipes.Prelude.Texts.{is_lower, is_upper, is_digit, truthy}

-- The characters of SAFE_SHELL_TOKEN.
abbrev pub is_safe_char : ℕ → Bool
is_safe_char c = is_lower c || (is_upper c || (is_digit c || any (λ d. c == d) (codes "_./:@+-")))

-- value.replace(/'/g, `'"'"'`)
unfoldable pub quoted_body : Text → Text
quoted_body [] = []
quoted_body (c ∷ s) =
    let rest = quoted_body s in
    if c == b'\'' then b'\'' ∷ b'"' ∷ b'\'' ∷ b'"' ∷ b'\'' ∷ rest else c ∷ rest

unfoldable pub shell_quote : Text → Text
shell_quote value = b'\'' ∷ (quoted_body value ++ b'\'' ∷ [])

-- SAFE_SHELL_TOKEN.test(value)
abbrev pub is_safe_token : Text → Bool
is_safe_token value = if truthy value then all is_safe_char value else false

unfoldable pub shell_token : Text → Text
shell_token value = if is_safe_token value then value else shell_quote value

unfoldable pub contract_selector : Text → Text → Text
contract_selector server tool = shell_token (server ++ b'.' ∷ tool)
