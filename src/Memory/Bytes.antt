-- ===== src/Memory/Bytes.antt =====
-- The byte budget of the memory in the prompt.
use pi_recipes.Prelude.{
  ℕ, zero, suc, ◌+◌, ◌-◌, ◌≤◌, Text, Bool, false, ◌||◌, ◌≡◌, refl, ap, [], ◌∷◌, ◌++◌, arith,
  if◌then◌else◌, ltb, leb, inl, inr, Bool-cases, if-keeps,
}
use pi_recipes.Memory.{
  byte_size, byte_length, escape_xml_character, escape_xml, escape_within, escape_xml_within_bytes,
  dots, bound_lines, prompt_content,
}

byte_length-append : (s t : Text) → byte_length (s ++ t) ≡ byte_length s + byte_length t
unfolding byte_length
byte_length-append [] t = omega arith
byte_length-append (c ∷ s) t = omega (arith, byte_length-append s t)

byte_length-dots : (n : ℕ) → byte_length (dots n) ≡ n
unfolding byte_length dots byte_size
byte_length-dots zero = refl
byte_length-dots (suc n) = omega (arith, byte_length-dots n)

escape_within-le :
    (most used : ℕ) (s : Text)
    → used ≤ most
    → used + byte_length (escape_within most used s).0 ≤ most
unfolding escape_within byte_length
escape_within-le most used [] h = omega arith
escape_within-le most used (c ∷ s) h =
    elim (Bool-cases (ltb most (used + byte_length (escape_xml_character c)))) [
      | inl full ↦ rw full (omega arith)
      | inr fits ↦ rw fits (
          omega (
            arith,
            byte_length-append (escape_xml_character c)
                (escape_within most (used + byte_length (escape_xml_character c)) s).0,
            escape_within-le most (used + byte_length (escape_xml_character c)) s (ground arith),
          ))
    ]

-- What fits is the whole text, escaped.
escape_within-eq :
    (most used : ℕ) (s : Text)
    → (escape_within most used s).1 ≡ false
    → (escape_within most used s).0 ≡ escape_xml s
unfolding escape_within escape_xml
escape_within-eq most used [] h = refl
escape_within-eq most used (c ∷ s) h =
    elim (Bool-cases (ltb most (used + byte_length (escape_xml_character c)))) [
      | inl full ↦ cc (rw (full, escape_within) at h)
      | inr fits ↦ rw fits (
          ap (λ x. escape_xml_character c ++ x)
            (escape_within-eq most (used + byte_length (escape_xml_character c)) s
              (rw (fits, escape_within) at h)))
    ]

escape_within-fits :
    (most used : ℕ) (s : Text)
    → used + byte_length (escape_xml s) ≤ most
    → (escape_within most used s).1 ≡ false
unfolding escape_within escape_xml
escape_within-fits most used [] h = refl
escape_within-fits most used (c ∷ s) h =
    let whole = byte_length-append (escape_xml_character c) (escape_xml s) in
    let rest =
      escape_within-fits most (used + byte_length (escape_xml_character c)) s
        (omega (arith, whole)) in
    let fits : ltb most (used + byte_length (escape_xml_character c)) ≡ false =
      ground (arith, whole) in
    rw fits rest

cut_suffix : ℕ → Text
cut_suffix n = if leb 3 n then dots 3 else dots n

cut_suffix-le : (n : ℕ) → byte_length (cut_suffix n) ≤ n
unfolding cut_suffix
cut_suffix-le n =
    if-keeps (λ t. byte_length t ≤ n) (leb 3 n) (dots 3) (dots n)
      (λ h. ground (arith, byte_length-dots 3)) (λ h. ground (arith, byte_length-dots n))

-- The text between the content tags never takes more than the byte limit, the mark of the cut
-- included, whatever the memory holds and however many bytes its escapes take.
pub prompt_content-le :
    (content : Text) (truncated : Bool) (max_lines max_bytes : ℕ)
    → byte_length (prompt_content content truncated max_lines max_bytes) ≤ max_bytes
unfolding prompt_content escape_xml_within_bytes cut_suffix
prompt_content-le content truncated max_lines max_bytes =
    let lines = (bound_lines content max_lines).0 in
    let room = max_bytes - byte_length (cut_suffix max_bytes) in
    if-keeps (λ t. byte_length t ≤ max_bytes)
      (truncated || ((bound_lines content max_lines).1 || (escape_within max_bytes 0 lines).1)) _ _
      (λ _. omega (
        arith,
        byte_length-append (escape_within room 0 lines).0 (cut_suffix max_bytes),
        cut_suffix-le max_bytes,
        escape_within-le room 0 lines (omega arith),
      ))
      (λ _. omega (arith, escape_within-le max_bytes 0 lines (omega arith)))

-- A memory that has not been cut, whose lines are within the limit and whose escaped text fits, is shown whole.
pub prompt_content-whole :
    (content : Text) (max_lines max_bytes : ℕ)
    → (bound_lines content max_lines).1 ≡ false
    → byte_length (escape_xml (bound_lines content max_lines).0) ≤ max_bytes
    → prompt_content content false max_lines max_bytes
      ≡ escape_xml (bound_lines content max_lines).0
unfolding prompt_content escape_xml_within_bytes
prompt_content-whole content max_lines max_bytes h fits =
    let lines = (bound_lines content max_lines).0 in
    let whole = escape_within-fits max_bytes 0 lines (omega (arith, fits)) in
    rw (h, whole) (escape_within-eq max_bytes 0 lines whole)
