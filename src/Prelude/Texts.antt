-- ===== src/Prelude/Texts.antt =====
-- JavaScript strings as lists of numbers, and the string methods that the program calls.
use Prim.Native.Char.{code}
use Prim.Native.Nat.{ℕ, ◌+◌}
use Prim.Native.String.{String}
use mathlib.Core.Path.{◌≡◌, refl, ap, ◌∙◌}
use mathlib.Core.Logic.{◌↔◌}
use mathlib.Core.Bool.{Bool, true, false, not, ◌&&◌, ◌||◌}
use mathlib.Core.Option.{Option, none, some}
use mathlib.Core.List.{List, [], ◌∷◌, ◌++◌, reverse, reverse-reverse}
use native.Mathlib.Omega.{arith}
use pi_recipes.Prelude.Lists.{any}
use pi_recipes.Prelude.Tests.{leb, ◌==◌, if◌then◌else◌}

abbrev pub Text : Type 0
Text = List ℕ

-- A literal, all of whose characters lie in the basic plane.
abbrev pub codes : String → Text
codes String.[] = []
codes (String.◌∷◌ c s) = code c ∷ codes s

-- `===` on strings
unfoldable pub text_eq : Text → Text → Bool
text_eq [] [] = true
text_eq [] (_ ∷ _) = false
text_eq (_ ∷ _) [] = false
text_eq (a ∷ s) (b ∷ t) = a == b && text_eq s t

pub text_eq_iff : (s t : Text) → (text_eq s t ≡ true) ↔ (s ≡ t)
unfolding text_eq
text_eq_iff [] [] = (λ h. refl, λ h. refl)
text_eq_iff [] (_ ∷ _) = ground arith
text_eq_iff (_ ∷ _) [] = ground arith
text_eq_iff (a ∷ s) (b ∷ t) = ground (arith, text_eq_iff s t)

pub text_eq_refl : (s : Text) → text_eq s s ≡ true
text_eq_refl s = (text_eq_iff s s).1 refl

-- The white space of String.prototype.trim, line ends included.
abbrev pub is_space : ℕ → Bool
is_space c =
    (leb 9 c && leb c 13)
    || (c == 32
        || (c == 160
            || (c == 0x1680
                || ((leb 0x2000 c && leb c 0x200a)
                    || (c == 0x2028
                        || (c == 0x2029
                            || (c == 0x202f || (c == 0x205f || (c == 0x3000 || c == 0xfeff)))))))))

unfoldable pub trim_start : Text → Text
trim_start [] = []
trim_start (c ∷ s) = if is_space c then trim_start s else c ∷ s

-- s.trim()
unfoldable pub trim : Text → Text
unfolding trim_start
trim s = reverse (trim_start (reverse (trim_start s)))

-- A text as a condition: the empty one is false.
abbrev pub truthy : Text → Bool
truthy [] = false
truthy (_ ∷ _) = true

-- parts.join(separator)
unfoldable pub join : Text → List Text → Text
join sep [] = []
join sep (s ∷ []) = s
join sep (s ∷ t ∷ rest) = s ++ (sep ++ join sep (t ∷ rest))

-- s.startsWith(prefix), and s without it
unfoldable pub strip_prefix : Text → Text → Option Text
strip_prefix [] s = some s
strip_prefix (_ ∷ _) [] = none
strip_prefix (a ∷ p) (b ∷ s) = if a == b then strip_prefix p s else none

abbrev pub starts_with : Text → Text → Bool
starts_with p s = elim (strip_prefix p s) [ none ↦ false | some _ ↦ true ]

-- s.includes(part)
unfoldable pub includes : Text → Text → Bool
unfolding strip_prefix
includes part [] = starts_with part []
includes part (c ∷ s) = starts_with part (c ∷ s) || includes part s

-- The parts of `s` before and after the first `c`: s.indexOf(c) with the two slices.
unfoldable pub split_at : ℕ → Text → Option (Text × Text)
split_at c [] = none
split_at c (d ∷ s) =
    let rest = split_at c s in
    if d == c then some ([], s) else elim rest [ none ↦ none | some (a, b) ↦ some (d ∷ a, b) ]

abbrev pub is_lower : ℕ → Bool
is_lower c = leb b'a' c && leb c b'z'

abbrev pub is_upper : ℕ → Bool
is_upper c = leb b'A' c && leb c b'Z'

abbrev pub is_digit : ℕ → Bool
is_digit c = leb b'0' c && leb c b'9'

-- A letter of ASCII in lower case, and any other code unit as it is.
unfoldable pub lower_ascii : ℕ → ℕ
lower_ascii c = if is_upper c then c + 32 else c

-- Array.prototype.includes and Set.prototype.has on texts
unfoldable pub has : Text → List Text → Bool
unfolding text_eq
has s [] = false
has s (t ∷ ts) = if text_eq t s then true else has s ts

-- The first character passes the test, if there is one.
abbrev pub first : (ℕ → Bool) → Text → Bool
first p [] = true
first p (c ∷ s) = p c

trim_start-fixed : (s : Text) → first (λ c. not (is_space c)) s ≡ true → trim_start s ≡ s
unfolding trim_start
trim_start-fixed [] h = refl
trim_start-fixed (c ∷ s) h = ground arith

-- A text with no white space at its ends is its own trim.
pub trim-fixed :
    (s : Text)
    → first (λ c. not (is_space c)) s ≡ true
    → first (λ c. not (is_space c)) (reverse s) ≡ true
    → trim s ≡ s
unfolding trim
trim-fixed s h k =
    ap (λ t. reverse (trim_start (reverse t))) (trim_start-fixed s h)
    ∙ ap reverse (trim_start-fixed (reverse s) k)
    ∙ reverse-reverse s

-- value?.trim(), where an empty text is as good as none
unfoldable pub given_trimmed : Option Text → Option Text
given_trimmed none = none
given_trimmed (some s) = if truthy (trim s) then some (trim s) else none

-- [...new Set(texts)], after those that stand before.
unfoldable pub distinct_texts : List Text → List Text → List Text
distinct_texts seen [] = []
distinct_texts seen (s ∷ rest) =
    let after = distinct_texts (s ∷ seen) rest in if any (text_eq s) seen then after else s ∷ after
