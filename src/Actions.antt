-- ===== src/Actions.antt =====
-- Calls that change a state, also when they throw: shared by the parts that drive devices.
use supryolo.Base.{◌≡◌, refl, Result, ok, err, String, Option, none, some, Bool, true, false}

abbrev pub Action : Type 0 → Type 0 → Type 0
Action S A = S → Result A × S

module _ {S : Type 0} where
  module _ {A : Type 0} where
    abbrev pub pure : A → Action S A
    pure a s = (ok a, s)

    abbrev pub throw : String → Action S A
    throw why s = (err why, s)

    -- A computation that leaves the state alone.
    abbrev pub lift : Result A → Action S A
    lift r s = (r, s)

    -- `none` is an error code, for which `why` is thrown.
    abbrev pub answer : String → Option A × S → Result A × S
    answer why (none, s) = (err why, s)
    answer why (some a, s) = (ok a, s)

  -- `false` is an error code.
  abbrev pub succeed : String → Bool × S → Result (Unit {0}) × S
  succeed why (false, s) = (err why, s)
  succeed why (true, s) = (ok tt, s)

  module _ {A B : Type 0} where
    abbrev pub and_then : Result A × S → (A → Action S B) → Result B × S
    and_then (ok a, s) f = f a s
    and_then (err why, s) f = (err why, s)

    infixl 5 ◌>>=◌
    abbrev pub ◌>>=◌ : Action S A → (A → Action S B) → Action S B
    ◌>>=◌ m f s = and_then (m s) f

    -- When the whole returned, so did the first part.
    pub and_then-ok :
        (r : Result A × S) (f : A → Action S B) {b : B} {s' : S}
        → and_then r f ≡ (ok b, s')
        → (a : A) × (s : S) × (r ≡ (ok a, s)) × (f a s ≡ (ok b, s'))
    and_then-ok (ok a, s) f e = (a, s, refl, e)
    and_then-ok (err why, s) f e = cc

  module _ {B : Type 0} where
    infixl 5 ◌>>◌
    abbrev pub ◌>>◌ : Action S (Unit {0}) → Action S B → Action S B
    m >> f = m >>= (λ u. f)
