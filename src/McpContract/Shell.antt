-- ===== src/McpContract/Shell.antt =====
-- How a POSIX shell reads one word, as far as it is fixed by quotes: a reader to hold the quoting of
-- src/mcp-contract.ts against. It gives the word and what follows it, and nothing where the word
-- would be expanded, or its quotes do not end.
use pi_recipes.Prelude.{ℕ, Text, codes, Bool, [], ◌∷◌, Option, none, some, any, if◌then◌else◌, ◌==◌}

-- Outside quotes, within '…' or within "…".
pub data Quoting : Type 0 where
  unquoted single_quoted double_quoted : Quoting

abbrev pub prepend : ℕ → Option (Text × Text) → Option (Text × Text)
prepend c none = none
prepend c (some (word, rest)) = some (c ∷ word, rest)

-- What ends a word: a blank, a newline or an operator.
abbrev pub ends_word : ℕ → Bool
ends_word c = any (λ d. c == d) (codes " \t\n;&|<>()")

-- What keeps a meaning of its own within "…".
abbrev pub is_special : ℕ → Bool
is_special c = any (λ d. c == d) (codes "$`\\")

-- What POSIX (Shell Command Language, 2.2) says is to be quoted to stand for itself, beyond quotes
-- and what ends a word: expansions and escapes, patterns, comments, tildes, assignments, and the
-- braces and the bang that shells give a meaning to.
abbrev pub needs_quoting : ℕ → Bool
needs_quoting c = any (λ d. c == d) (codes "$`\\*?[]#~=%{}!^")

unfoldable pub read_word : Quoting → Text → Option (Text × Text)
read_word unquoted [] = some ([], [])
read_word single_quoted [] = none
read_word double_quoted [] = none
read_word single_quoted (c ∷ s) =
    let closed = read_word unquoted s in
    let more = prepend c (read_word single_quoted s) in if c == b'\'' then closed else more
read_word double_quoted (c ∷ s) =
    let closed = read_word unquoted s in
    let more = prepend c (read_word double_quoted s) in
    if c == b'"' then closed else if is_special c then none else more
read_word unquoted (c ∷ s) =
    let single = read_word single_quoted s in
    let double = read_word double_quoted s in
    let more = prepend c (read_word unquoted s) in
    if c == b'\''
    then single
    else if c == b'"'
    then double
    else if ends_word c
    then some ([], c ∷ s)
    else if needs_quoting c
    then none
    else more
