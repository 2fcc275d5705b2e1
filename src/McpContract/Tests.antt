-- ===== src/McpContract/Tests.antt =====
-- A value with a quote in it, before a blank.
use pi_recipes.Prelude.{codes, ◌∷◌, ◌++◌, some, ◌≡◌, refl}
use pi_recipes.McpContract.{contract_selector, shell_quote}
use pi_recipes.McpContract.Shell.{unquoted, read_word}
use pi_recipes.McpContract.Words.{shell_words}

shell_words_example :
    (read_word unquoted
        (contract_selector (codes "my docs") (codes "find") ++ b' ' ∷ codes "--json")
      ≡ some (codes "my docs.find", b' ' ∷ codes "--json"))
    × (read_word unquoted (shell_quote (codes "it's $HOME") ++ b' ' ∷ codes "--json")
        ≡ some (codes "it's $HOME", b' ' ∷ codes "--json"))
shell_words_example =
    shell_words (codes "my docs") (codes "find") (codes "it's $HOME") b' ' (codes "--json") refl
