-- ===== src/McpContract/Words.antt =====
-- Quoting holds: the shell reads each word as the value that was quoted (src/mcp-contract.ts).
use pi_recipes.Prelude.{
  ℕ, Text, codes, Bool, true, false, ◌||◌, ◌&&◌, [], ◌∷◌, ◌++◌, Option, none, some, any, all,
  if◌then◌else◌, ◌==◌, ◌≡◌, refl, ap, ◌∙◌, subst, arith, inl, inr, Bool-cases, ==_iff,
}
use pi_recipes.McpContract.{
  is_safe_char, quoted_body, shell_quote, is_safe_token, shell_token, contract_selector,
}
use pi_recipes.McpContract.Shell.{
  unquoted, single_quoted, prepend, ends_word, needs_quoting, read_word,
}
use mathlib.Core.List.{append_assoc}

-- What the shell makes of a word that is put before what it reads already.
abbrev before : Text → Option (Text × Text) → Option (Text × Text)
before [] read = read
before (c ∷ s) read = prepend c (before s read)

read_word-quoted_body :
    (s rest : Text)
    → read_word single_quoted (quoted_body s ++ b'\'' ∷ rest) ≡ before s (read_word unquoted rest)
unfolding read_word quoted_body
read_word-quoted_body [] rest = refl
read_word-quoted_body (c ∷ s) rest = ground (arith, read_word-quoted_body s rest)

-- A quoted value, with what stands behind it.
read_word-shell_quote :
    (s rest : Text)
    → read_word unquoted (shell_quote s ++ rest) ≡ before s (read_word unquoted rest)
unfolding shell_quote read_word
read_word-shell_quote s rest =
    ap (read_word single_quoted) (append_assoc (quoted_body s) (b'\'' ∷ []) rest)
    ∙ read_word-quoted_body s rest

or_false_parts : (a b : Bool) → (a || b) ≡ false → (a ≡ false) × (b ≡ false)
or_false_parts false b e = (refl, e)
or_false_parts true b e = cc

and_true_parts : (a b : Bool) → (a && b) ≡ true → (a ≡ true) × (b ≡ true)
and_true_parts true b e = (refl, e)
and_true_parts false b e = cc

safe_token-all : (s : Text) → is_safe_token s ≡ true → all is_safe_char s ≡ true
safe_token-all [] e = cc
safe_token-all (c ∷ s) e = e

read_step :
    (q d e active : Bool) (single double ended more : Option (Text × Text))
    → q ≡ false
    → d ≡ false
    → e ≡ false
    → active ≡ false
    → (if q
        then single
        else if d
        then double
        else if e
        then ended
        else if active
        then none
        else more)
      ≡ more
read_step q d e active single double ended more nq nd ne is = rw (nq, nd, ne, is) refl

end_step :
    (q d e : Bool) (single double ended other : Option (Text × Text))
    → q ≡ false
    → d ≡ false
    → e ≡ true
    → (if q then single else if d then double else if e then ended else other) ≡ ended
end_step q d e single double ended other nq nd is = rw (nq, nd, is) refl

-- A character of a kind is none that is not of it.
differs : (p : ℕ → Bool) (c d : ℕ) → p d ≡ false → p c ≡ true → (c == d) ≡ false
differs p c d outside inside = elim (Bool-cases (c == d)) [
  | inr apart ↦ apart
  | inl same ↦ let twice : p d ≡ true = subst (λ x. p x ≡ true) ((==_iff c d).0 same) inside in cc
]

safe-none_of :
    (c : ℕ) (ds : Text)
    → any is_safe_char ds ≡ false
    → is_safe_char c ≡ true
    → any (λ d. c == d) ds ≡ false
safe-none_of c [] unsafe safe = refl
safe-none_of c (d ∷ ds) unsafe safe =
    let parts = or_false_parts (is_safe_char d) (any is_safe_char ds) unsafe in
    rw (differs is_safe_char c d parts.0 safe) (safe-none_of c ds parts.1 safe)

-- One step of the reader on such a character.
read_word-safe_char :
    (c : ℕ) (s : Text)
    → is_safe_char c ≡ true
    → read_word unquoted (c ∷ s) ≡ prepend c (read_word unquoted s)
unfolding read_word
read_word-safe_char c s safe =
    read_step (c == b'\'') (c == b'"') (ends_word c) (needs_quoting c) _ _ _ _
      (differs is_safe_char c b'\'' refl safe) (differs is_safe_char c b'"' refl safe)
      (safe-none_of c (codes " \t\n;&|<>()") refl safe)
      (safe-none_of c (codes "$`\\*?[]#~=%{}!^") refl safe)

read_word-safe :
    (s rest : Text)
    → all is_safe_char s ≡ true
    → read_word unquoted (s ++ rest) ≡ before s (read_word unquoted rest)
read_word-safe [] rest safe = refl
read_word-safe (c ∷ s) rest safe =
    let parts = and_true_parts (is_safe_char c) (all is_safe_char s) safe in
    read_word-safe_char c (s ++ rest) parts.0 ∙ ap (prepend c) (read_word-safe s rest parts.1)

read_word-shell_token :
    (s rest : Text)
    → read_word unquoted (shell_token s ++ rest) ≡ before s (read_word unquoted rest)
unfolding shell_token
read_word-shell_token s rest = elim (Bool-cases (is_safe_token s)) [
  | inl safe ↦ rw safe (read_word-safe s rest (safe_token-all s safe))
  | inr other ↦ rw other (read_word-shell_quote s rest)
]

before-nil : (s rest : Text) → before s (some ([], rest)) ≡ some (s, rest)
before-nil [] rest = refl
before-nil (c ∷ s) rest = ap (prepend c) (before-nil s rest)

-- The reader stops at what ends a word.
read_word-end :
    (c : ℕ) (rest : Text) → ends_word c ≡ true → read_word unquoted (c ∷ rest) ≡ some ([], c ∷ rest)
unfolding read_word
read_word-end c rest ends =
    end_step (c == b'\'') (c == b'"') (ends_word c) _ _ _ _ (differs ends_word c b'\'' refl ends)
      (differs ends_word c b'"' refl ends) ends

-- The selector and the values of a call example are each read by a POSIX shell as one word that is
-- the value itself, whatever characters it has: the word ends at the blank, newline or operator
-- behind it, and outside quotes it has no character that POSIX wants quoted, so that nothing of it
-- is expanded or run.
pub shell_words :
    (server tool value : Text) (c : ℕ) (rest : Text)
    → ends_word c ≡ true
    → (read_word unquoted (contract_selector server tool ++ c ∷ rest)
        ≡ some (server ++ b'.' ∷ tool, c ∷ rest))
      × (read_word unquoted (shell_quote value ++ c ∷ rest) ≡ some (value, c ∷ rest))
unfolding contract_selector
shell_words server tool value c rest ends =
    let stop = read_word-end c rest ends in
    (
      read_word-shell_token (server ++ b'.' ∷ tool) (c ∷ rest)
          ∙ ap (before (server ++ b'.' ∷ tool)) stop
          ∙ before-nil (server ++ b'.' ∷ tool) (c ∷ rest),
      read_word-shell_quote value (c ∷ rest) ∙ ap (before value) stop ∙ before-nil value (c ∷ rest),
    )
