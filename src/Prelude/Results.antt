-- ===== src/Prelude/Results.antt =====
-- Results of code that may throw, and their sequencing.
use mathlib.Core.Path.{◌≡◌, refl, subst}

pub data Result {ℓ} (Error Value : Type ℓ) : Type ℓ where
  throws : Error → Result Error Value
  returns : Value → Result Error Value

module _ {ℓ} {E A B : Type ℓ} where
  infixl 5 ◌>>=◌ ◌>>◌
  -- A call, and the code after it: an error skips that code.
  abbrev pub ◌>>=◌ : Result E A → (A → Result E B) → Result E B
  call >>= next = elim call [ throws error ↦ throws error | returns result ↦ next result ]

  -- The same, where the code after it does not use the result.
  abbrev pub ◌>>◌ : Result E A → Result E B → Result E B
  call >> after = elim call [ throws error ↦ throws error | returns _ ↦ after ]

-- What a result that is not an error came from.
pub >>=-eq-returns {ℓ} :
    {E A B : Type ℓ} (m : Result E A) (f : A → Result E B) {b : B}
    → (m >>= f) ≡ returns b
    → (a : A) × (m ≡ returns a) × (f a ≡ returns b)
>>=-eq-returns (returns a) f h = (a, refl, h)
>>=-eq-returns (throws e) f h = cc

-- What holds of the result, if there is one.
abbrev pub Ensures {ℓ κ} : {E A : Type ℓ} → (A → Type κ) → Result E A → Type κ
Ensures P (returns a) = P a
Ensures P (throws e) = Unit

pub Ensures-eq {ℓ κ} :
    {E A : Type ℓ} (P : A → Type κ) (m : Result E A) (a : A) → Ensures P m → m ≡ returns a → P a
Ensures-eq P (returns b) a h e = subst P (cc) h
Ensures-eq P (throws x) a h e = cc

-- A result, and what follows it.
pub then-Ensures {ℓ κ} :
    {E A B : Type ℓ} (P : A → Type κ) (Q : B → Type κ) (m : Result E A) (f : A → Result E B)
    → Ensures P m
    → ((a : A) → P a → Ensures Q (f a))
    → Ensures Q (m >>= f)
then-Ensures P Q (returns a) f h g = g a h
then-Ensures P Q (throws e) f h g = tt

pub then_any-Ensures {ℓ κ} :
    {E A B : Type ℓ} (Q : B → Type κ) (m : Result E A) (f : A → Result E B)
    → ((a : A) → Ensures Q (f a))
    → Ensures Q (m >>= f)
then_any-Ensures Q (returns a) f g = g a
then_any-Ensures Q (throws e) f g = tt
