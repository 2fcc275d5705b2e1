-- ===== src/CliPolicy/Arguments.antt =====
-- The grammar of the arguments that a delegated call may have.
use mathlib.Core.Bool.{and-eq-true_iff}
use pi_recipes.Prelude.{
  ℕ, Text, true, false, ◌≡◌, refl, ap, inl, inr, List, [], ◌∷◌, ◌++◌, none, some, any, all, arith,
  ◌==◌, ==_iff, Option-cases, Bool-cases,
}
use pi_recipes.Prelude.Texts.{split_at, has}
use pi_recipes.CliPolicy.{
  call_flags_with_value, is_key_start, is_key_char, key_rest, is_key_value, ArgumentKind,
  the_literal, bad_flag, assignment, flag_with_value, flag_before_value, bad_argument, kind_of,
  call_syntax_error,
}
use pi_recipes.CliPolicy.Listing.{flag_name}

-- An identifier, with dots and dashes after its first character.
pub data IsKey : Text → Type 0 where
  key : (c : ℕ) (s : Text) → is_key_start c ≡ true → all is_key_char s ≡ true → IsKey (c ∷ s)

-- The arguments are assignments key=value and the flags --json, --output and --timeout, each with
-- a value, in it or after it, or last.
pub data SafeCall : List Text → Type 0 where
  finish : SafeCall []
  assign :
      {a : Text} {args : List Text} (k value : Text)
      → a ≡ k ++ b'=' ∷ value
      → IsKey k
      → SafeCall args
      → SafeCall (a ∷ args)
  inline :
      {a : Text} {args : List Text} (flag value : Text)
      → a ≡ flag ++ b'=' ∷ value
      → has flag call_flags_with_value ≡ true
      → SafeCall args
      → SafeCall (a ∷ args)
  separate :
      {flag value : Text} {args : List Text}
      → has flag call_flags_with_value ≡ true
      → SafeCall args
      → SafeCall (flag ∷ value ∷ args)
  last : {flag : Text} → has flag call_flags_with_value ≡ true → SafeCall (flag ∷ [])

split_at-eq : (c : ℕ) (s a b : Text) → split_at c s ≡ some (a, b) → s ≡ a ++ c ∷ b
unfolding split_at
split_at-eq c [] a b e = cc
split_at-eq c (d ∷ s) a b e = elim (Bool-cases (d == c)) [
  | inl here ↦ ground (arith, ==_iff d c)
  | inr there ↦ elim (Option-cases (split_at c s)) [
    | inl missing ↦ ground arith
    | inr ((x, y), found) ↦ ground (arith, split_at-eq c s x y found)
  ]
]

split_at-any : (c : ℕ) (s : Text) → split_at c s ≡ none → any (λ d. d == c) s ≡ false
unfolding split_at
split_at-any c [] e = refl
split_at-any c (d ∷ s) e = elim (Option-cases (split_at c s)) [
  | inl missing ↦ ground (arith, split_at-any c s missing)
  | inr ((x, y), found) ↦ ground arith
]

any-split_at : (c : ℕ) (s : Text) → any (λ d. d == c) s ≡ false → split_at c s ≡ none
unfolding split_at
any-split_at c [] h = refl
any-split_at c (d ∷ s) h = ground (arith, any-split_at c s)

kind_of-inline :
    (a : Text)
    → kind_of a ≡ flag_with_value
    → (flag : Text) × (value : Text) × (a ≡ flag ++ b'=' ∷ value)
      × (has flag call_flags_with_value ≡ true)
unfolding kind_of flag_name
kind_of-inline a e = elim (Option-cases (split_at b'=' a)) [
  | inl missing ↦ ground (arith, split_at-any b'=' a missing)
  | inr ((x, y), found) ↦ (x, y, split_at-eq b'=' a x y found, ground arith)
]

kind_of-separate : (a : Text) → kind_of a ≡ flag_before_value → has a call_flags_with_value ≡ true
unfolding kind_of flag_name
kind_of-separate a e = ground (arith, any-split_at b'=' a)

key_rest-step :
    (c : ℕ) (s : Text)
    → key_rest (c ∷ s) ≡ true
    → (c == b'=') ≡ false
    → (is_key_char c ≡ true) × (key_rest s ≡ true)
unfolding key_rest
key_rest-step c s h other = (and-eq-true_iff (is_key_char c) (key_rest s)).0 (rw other at h)

key_rest-eq :
    (s : Text)
    → key_rest s ≡ true
    → (k : Text) × (value : Text) × (s ≡ k ++ b'=' ∷ value) × (all is_key_char k ≡ true)
unfolding key_rest
key_rest-eq [] h = cc
key_rest-eq (c ∷ s) h = elim (Bool-cases (c == b'=')) [
  | inl here ↦ ([], s, ap (λ x. x ∷ s) ((==_iff c b'=').0 here), refl)
  | inr there ↦
      let step = key_rest-step c s h there in
      let (k, value, e, good) = key_rest-eq s step.1 in
      (c ∷ k, value, ap (◌∷◌ c) e, (and-eq-true_iff (is_key_char c) _).1 (step.0, good))
]

kind_of-assign :
    (a : Text)
    → kind_of a ≡ assignment
    → (k : Text) × (value : Text) × (a ≡ k ++ b'=' ∷ value) × IsKey k
unfolding kind_of is_key_value
kind_of-assign [] e = ground arith
kind_of-assign (c ∷ s) e =
    let (k, value, is, good) = key_rest-eq s (ground arith) in
    (c ∷ k, value, ap (◌∷◌ c) is, key c k (ground arith) good)

-- One argument, when those that follow are known to be safe.
one-SafeCall :
    (a : Text) (args : List Text) (k : ArgumentKind)
    → kind_of a ≡ k
    → call_syntax_error false (a ∷ args) ≡ none
    → (call_syntax_error false args ≡ none → SafeCall args)
    → (has a call_flags_with_value ≡ true
        → call_syntax_error true args ≡ none
        → SafeCall (a ∷ args))
    → SafeCall (a ∷ args)
unfolding call_syntax_error
one-SafeCall a args the_literal is e next after = cc (rw (is, call_syntax_error) at e)
one-SafeCall a args bad_flag is e next after = cc (rw (is, call_syntax_error) at e)
one-SafeCall a args bad_argument is e next after = cc (rw (is, call_syntax_error) at e)
one-SafeCall a args assignment is e next after =
    let (k, value, same, good) = kind_of-assign a is in
    assign k value same good (next (rw (is, call_syntax_error) at e))
one-SafeCall a args flag_with_value is e next after =
    let (flag, value, same, known) = kind_of-inline a is in
    inline flag value same known (next (rw (is, call_syntax_error) at e))
one-SafeCall a args flag_before_value is e next after =
    after (kind_of-separate a is) (rw (is, call_syntax_error) at e)

-- Arguments that pass the check are of the grammar.
pub syntax-SafeCall : (args : List Text) → call_syntax_error false args ≡ none → SafeCall args
unfolding call_syntax_error
syntax-SafeCall [] e = finish
syntax-SafeCall (a ∷ []) e =
    one-SafeCall a [] (kind_of a) refl e (syntax-SafeCall []) (λ known _. last known)
syntax-SafeCall (a ∷ v ∷ args) e =
    one-SafeCall a (v ∷ args) (kind_of a) refl e (syntax-SafeCall (v ∷ args))
      (λ known rest. separate known (syntax-SafeCall args rest))
