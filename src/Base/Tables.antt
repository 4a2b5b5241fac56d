-- ===== src/Base/Tables.antt =====
-- A fact about every value of a small range, by evaluation.
use Prim.Native.Nat.{ℕ, zero, suc, ◌<◌}
use mathlib.Core.Path.{◌≡◌}
use mathlib.Core.Bool.{Bool, true, ◌&&◌}
use native.Mathlib.Omega.{arith}
use supryolo.Base.Tests.{◌==◌, ==_iff}

-- Whether `p` holds of every number below `n`.
unfoldable pub for_below : ℕ → (ℕ → Bool) → Bool
for_below zero p = true
for_below (suc n) p = p n && for_below n p

pub for_below-lt : (n : ℕ) (p : ℕ → Bool) (x : ℕ) → for_below n p ≡ true → x < n → p x ≡ true
unfolding for_below
for_below-lt zero p x h lt = absurd (omega arith)
for_below-lt (suc n) p x h lt = ground (arith, for_below-lt n p x)

-- Two functions with one table have one value at each number in range.
pub for_below-eq :
    (n : ℕ) (f g : ℕ → ℕ) (x : ℕ) → for_below n (λ i. f i == g i) ≡ true → x < n → f x ≡ g x
for_below-eq n f g x h lt = (==_iff (f x) (g x)).0 (for_below-lt n (λ i. f i == g i) x h lt)
