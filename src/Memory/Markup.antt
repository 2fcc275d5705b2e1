-- ===== src/Memory/Markup.antt =====
-- The memory cannot break out of the tags around it.
use pi_recipes.Prelude.{
  ℕ, zero, suc, ◌+◌, ◌-◌, ◌≤◌, Text, codes, Bool, true, not, ◌&&◌, ◌||◌, ◌≡◌, refl, ap, ◌∙◌, [],
  ◌∷◌, ◌++◌, Option, none, some, all, arith, if◌then◌else◌, length, ◌==◌, ==_iff, ltb, leb, inl,
  inr, Bool-cases, if-keeps,
}
use pi_recipes.Prelude.Texts.{strip_prefix}
use pi_recipes.Memory.{
  byte_length, escape_xml_character, escape_xml, escape_within, escape_xml_within_bytes, dots,
  bound_lines, prompt_content,
}

-- The characters that end a text in XML, or a value in quotes.
abbrev pub is_plain : ℕ → Bool
is_plain c = not (c == b'<' || (c == b'>' || (c == 34 || c == 39)))

all-append : (p : ℕ → Bool) (s t : Text) → all p (s ++ t) ≡ (all p s && all p t)
all-append p [] t = refl
all-append p (c ∷ s) t = ground (arith, all-append p s t)

all-escape_character : (c : ℕ) → all is_plain (escape_xml_character c) ≡ true
unfolding escape_xml_character
all-escape_character c = ground arith

all-escape_within : (most used : ℕ) (s : Text) → all is_plain (escape_within most used s).0 ≡ true
unfolding escape_within
all-escape_within most used [] = refl
all-escape_within most used (c ∷ s) =
    let next = used + byte_length (escape_xml_character c) in
    if-keeps (λ (r : Text × Bool). all is_plain r.0 ≡ true) (ltb most next) _ _ (λ _. refl)
      (λ _. ground (
        arith,
        all-append is_plain (escape_xml_character c) (escape_within most next s).0,
        all-escape_character c,
        all-escape_within most next s,
      ))

all-dots : (n : ℕ) → all is_plain (dots n) ≡ true
unfolding dots
all-dots zero = refl
all-dots (suc n) = all-dots n

-- Whatever the memory holds, the text between the content tags has no `<`, no `>` and no quote, so
-- it neither closes the tags nor opens others; cutting it does not change that.
pub prompt_content-plain :
    (content : Text) (truncated : Bool) (max_lines max_bytes : ℕ)
    → all is_plain (prompt_content content truncated max_lines max_bytes) ≡ true
unfolding prompt_content escape_xml_within_bytes
prompt_content-plain content truncated max_lines max_bytes =
    let lines = (bound_lines content max_lines).0 in
    let suffix = if leb 3 max_bytes then dots 3 else dots max_bytes in
    let room = max_bytes - byte_length suffix in
    if-keeps (λ t. all is_plain t ≡ true)
      (truncated || ((bound_lines content max_lines).1 || (escape_within max_bytes 0 lines).1)) _ _
      (λ _. ground (
        arith,
        all-append is_plain (escape_within room 0 lines).0 suffix,
        all-escape_within room 0 lines,
        all-dots 3,
        all-dots max_bytes,
      ))
      (λ _. all-escape_within max_bytes 0 lines)

-- A reader of XML: an entity for each of the five characters, and the rest as it stands.
abbrev read_entity : Text → Option (ℕ × Text)
read_entity s = elim (strip_prefix (codes "&amp;") s) [
  | some r ↦ some (b'&', r)
  | none ↦ elim (strip_prefix (codes "&lt;") s) [
    | some r ↦ some (b'<', r)
    | none ↦ elim (strip_prefix (codes "&gt;") s) [
      | some r ↦ some (b'>', r)
      | none ↦ elim (strip_prefix (codes "&quot;") s) [
        | some r ↦ some (34, r)
        | none ↦ elim (strip_prefix (codes "&apos;") s) [ some r ↦ some (39, r) | none ↦ none ]
      ]
    ]
  ]
]

pub read_xml : ℕ → Text → Text
read_xml zero s = []
read_xml (suc fuel) [] = []
read_xml (suc fuel) (c ∷ s) = elim (read_entity (c ∷ s)) [
  | some (d, r) ↦ d ∷ read_xml fuel r
  | none ↦ c ∷ read_xml fuel s
]

read_xml-character :
    (fuel c : ℕ) (s : Text)
    → read_xml (suc fuel) (escape_xml_character c ++ s) ≡ c ∷ read_xml fuel s
unfolding read_xml escape_xml_character strip_prefix
read_xml-character fuel c s = elim (Bool-cases (c == b'&')) [
  | inl e ↦ ground (arith, ==_iff c b'&')
  | inr not_amp ↦ elim (Bool-cases (c == b'<')) [
    | inl e ↦ ground (arith, ==_iff c b'<')
    | inr not_lt ↦ elim (Bool-cases (c == b'>')) [
      | inl e ↦ ground (arith, ==_iff c b'>')
      | inr not_gt ↦ elim (Bool-cases (c == 34)) [
        | inl e ↦ ground (arith, ==_iff c 34)
        | inr not_quot ↦ elim (Bool-cases (c == 39)) [
          | inl e ↦ ground (arith, ==_iff c 39)
          | inr not_apos ↦ ground arith
        ]
      ]
    ]
  ]
]

-- Escaping loses nothing: a reader of XML gives the text back.
pub read_xml-escape : (fuel : ℕ) (s : Text) → length s ≤ fuel → read_xml fuel (escape_xml s) ≡ s
unfolding escape_xml
read_xml-escape zero [] h = unfold read_xml in refl
read_xml-escape (suc fuel) [] h = unfold read_xml in refl
read_xml-escape zero (c ∷ s) h = absurd (omega arith)
read_xml-escape (suc fuel) (c ∷ s) h =
    read_xml-character fuel c (escape_xml s) ∙ ap (◌∷◌ c) (read_xml-escape fuel s (omega arith))
