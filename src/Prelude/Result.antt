-- ===== src/Prelude/Result.antt =====
-- A computation that may raise. The transaction is rolled back by the caller on a raise, so a
-- raised error carries no state.
use mathlib.Core.Path.{◌≡◌, refl}
use mathlib.Core.Bool.{Bool, true, false}
use native.Mathlib.Omega.{arith}
use mathlib.Core.Option.{Option, none, some}

pub data Result {ℓ} (E : Type ℓ) (A : Type ℓ) : Type ℓ where
  ok : A → Result E A
  err : E → Result E A

-- The next call runs on the value of the first, unless that raised.
infixl 5 ◌>>=◌
abbrev pub ◌>>=◌ {ℓ} : {E A B : Type ℓ} → Result E A → (A → Result E B) → Result E B
err raised >>= next = err raised
ok value >>= next = next value

-- `if condition: raise error`
abbrev pub raise_if {ℓ} : {E : Type ℓ} → Bool → E → Result E (Unit {ℓ})
raise_if true e = err e
raise_if false e = ok tt

infixl 5 ◌>>◌
abbrev pub ◌>>◌ {ℓ} : {E B : Type ℓ} → Result E (Unit {ℓ}) → Result E B → Result E B
test >> next = test >>= λ _. next

-- `if value is None: raise error`
abbrev pub or_raise {ℓ} : {E A : Type ℓ} → Option A → E → Result E A
or_raise none e = err e
or_raise (some a) e = ok a

module _ {ℓ} {E : Type ℓ} where
  pub raise_if_ok : (b : Bool) (e : E) → raise_if b e ≡ ok tt → b ≡ false
  raise_if_ok true e h = cc
  raise_if_ok false e h = refl

  pub or_raise_ok : {A : Type ℓ} (o : Option A) (e : E) {a : A} → or_raise o e ≡ ok a → o ≡ some a
  or_raise_ok none e h = cc
  or_raise_ok (some a) e h = cc

  -- A chain of two calls that succeeds has a first value, from which the second succeeds.
  abbrev pub Through : {A B : Type ℓ} → Result E A → (A → Result E B) → B → Type ℓ
  Through {A} first next result = (value : A) × (first ≡ ok value) × (next value ≡ ok result)

  pub >>=-Through :
      {A B : Type ℓ} {result : B} (first : Result E A) (next : A → Result E B)
      → (first >>= next) ≡ ok result
      → Through first next result
  >>=-Through (err raised) next passed = absurd (ground (arith, passed))
  >>=-Through (ok value) next passed = (value, refl, passed)
