-- ===== src/RecipeModel/Lacking.antt =====
-- Objects that lack the keys of a kind, and what spreading does to them.
use pi_recipes.Prelude.{
  Text, text_eq, text_eq_iff, text_eq_refl, Bool, true, false, [], Option, none, some, keep,
  if-keeps, ◌≡◌, refl, ap, arith,
}
use pi_recipes.Json.{Json, Fields, end, field, get, put, keys, spread, get-put}
use pi_recipes.RecipeModel.Config.{has_keys}
use pi_recipes.RecipeModel.Policy.{merge_section, or_end}

-- An object without the keys of a kind.
abbrev pub Lacks : (Text → Bool) → Fields → Type 0
Lacks test o = (k : Text) → test k ≡ true → get k o ≡ none

abbrev pub Section : (Text → Bool) → Option Fields → Type 0
Section test none = Unit
Section test (some o) = Lacks test o

module _ (test : Text → Bool) where
  pub end-Lacks : Lacks test end
  unfolding get
  end-Lacks k b = refl

  pub put-Lacks :
      (k : Text) (v : Json) (o : Fields) → test k ≡ false → Lacks test o → Lacks test (put k v o)
  put-Lacks k v o fine lacks j b =
      let same : text_eq k j ≡ true → test k ≡ test j = λ e. ap test ((text_eq_iff k j).0 e) in
      ground (arith, get-put k j v o, lacks j, same)

  pub first-Lacks : (k : Text) (v : Json) (o : Fields) → Lacks test (field k v o) → test k ≡ false
  unfolding get
  first-Lacks k v o lacks = ground (arith, lacks k, text_eq_refl k)

  pub rest-Lacks : (k : Text) (v : Json) (o : Fields) → Lacks test (field k v o) → Lacks test o
  unfolding get
  rest-Lacks k v o lacks j b =
      let same : text_eq k j ≡ true → test k ≡ test j = λ e. ap test ((text_eq_iff k j).0 e) in
      ground (arith, lacks j, first-Lacks k v o lacks, same)

  pub spread-Lacks : (base o : Fields) → Lacks test base → Lacks test o → Lacks test (spread base o)
  unfolding spread
  spread-Lacks base end lb lo = lb
  spread-Lacks base (field k v o) lb lo =
      spread-Lacks (put k v base) o (put-Lacks k v base (first-Lacks k v o lo) lb)
        (rest-Lacks k v o lo)

  -- Spreading such an object over another leaves those keys as they were.
  pub get-spread-Lacks :
      (base o : Fields)
      → Lacks test o
      → (j : Text) → test j ≡ true
      → get j (spread base o) ≡ get j base
  unfolding spread
  get-spread-Lacks base end lo j b = refl
  get-spread-Lacks base (field k v o) lo j b =
      let same : text_eq k j ≡ true → test k ≡ test j = λ e. ap test ((text_eq_iff k j).0 e) in
      ground (
        arith,
        get-spread-Lacks (put k v base) o (rest-Lacks k v o lo) j b,
        get-put k j v base,
        first-Lacks k v o lo,
        same,
      )

  pub or_end-Lacks : (o : Option Fields) → Section test o → Lacks test (or_end o)
  or_end-Lacks none s = end-Lacks
  or_end-Lacks (some o) s = s

  pub merge_section-Lacks :
      (base overlay : Option Fields)
      → Section test base
      → Section test overlay
      → Section test (merge_section base overlay)
  unfolding merge_section spread
  merge_section-Lacks none none sb so = tt
  merge_section-Lacks (some b) none sb so =
      if-keeps (Section test) (has_keys (spread b end)) _ _
        (λ full. spread-Lacks b end sb end-Lacks) (λ empty. sb)
  merge_section-Lacks base (some o) sb so =
      if-keeps (Section test) (has_keys (spread (or_end base) o)) _ _
        (λ full. spread-Lacks (or_end base) o (or_end-Lacks base sb) so) (λ empty. so)

  -- No key of the kind among the keys.
  pub keep-keys-Lacks : (o : Fields) → keep test (keys o) ≡ [] → Lacks test o
  unfolding keys get
  keep-keys-Lacks end e j b = refl
  keep-keys-Lacks (field k v o) e j b =
      let same : text_eq k j ≡ true → test k ≡ test j = λ e. ap test ((text_eq_iff k j).0 e) in
      let here : test k ≡ false = ground arith in
      let below : keep test (keys o) ≡ [] = ground arith in
      ground (arith, keep-keys-Lacks o below j b, same)
