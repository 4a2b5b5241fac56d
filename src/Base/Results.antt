-- ===== src/Base/Results.antt =====
-- Exceptions as values: `err` carries the text that the source gives to `std::runtime_error`.
use Prim.Native.String.{String}
use mathlib.Core.Path.{◌≡◌, refl}
use mathlib.Core.Bool.{Bool, true, false}
use mathlib.Core.Logic.{◌⊎◌, inl, inr}

pub data Result {ℓ} (A : Type ℓ) : Type ℓ where
  ok : A → Result A
  err : String → Result A

-- `if (!b) throw std::runtime_error(why)`.
abbrev pub require : Bool → String → Result (Unit {0})
require false why = err why
require true why = ok tt

-- The statements after one that may throw.
module _ {ℓ κ} {A : Type ℓ} {B : Type κ} where
  infixl 5 ◌>>=◌
  abbrev pub ◌>>=◌ : Result A → (A → Result B) → Result B
  err why >>= next = err why
  ok a >>= next = next a

  -- When the whole returned, so did the first part, and so did the rest on its value.
  pub >>=-eq-ok :
      (first : Result A) (next : A → Result B) {b : B}
      → (first >>= next) ≡ ok b
      → (a : A) × (first ≡ ok a) × (next a ≡ ok b)
  >>=-eq-ok (err why) next e = cc
  >>=-eq-ok (ok a) next e = (a, refl, e)

module _ {ℓ} {B : Type ℓ} where
  infixl 5 ◌>>◌
  abbrev pub ◌>>◌ : Result (Unit {0}) → Result B → Result B
  first >> next = first >>= (λ u. next)

  pub ok-injective : {a b : B} → ok a ≡ ok b → a ≡ b
  ok-injective e = cc

  pub Result-cases : (r : Result B) → ((a : B) × (r ≡ ok a)) ⊎ ((why : String) × (r ≡ err why))
  Result-cases (err why) = inr (why, refl)
  Result-cases (ok a) = inl (a, refl)

pub require-ok : (b : Bool) (why : String) {u : Unit {0}} → require b why ≡ ok u → b ≡ true
require-ok false why e = cc
require-ok true why e = refl
