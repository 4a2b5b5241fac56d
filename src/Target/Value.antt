-- ===== src/Target/Value.antt =====
-- The number that a byte sequence stands for, the most significant byte first.
use supryolo.Base.{
  ℕ, zero, suc, ◌+◌, ◌*◌, ◌^◌, ◌<◌, ◌≡◌, ◌≢◌, refl, ap, arith, List, [], ◌∷◌, length, get_or, set,
  replicate, All, all, ◌==◌, length-set,
}
use supryolo.Base.Bytes.{IsByte}
use native.Mathlib.Nat.{pow-suc, one-le-pow}

unfoldable pub be_value : List ℕ → ℕ
be_value [] = 0
be_value (x ∷ xs) = x * 256 ^ length xs + be_value xs

pub be_value-lt : (xs : List ℕ) → All IsByte xs → be_value xs < 256 ^ length xs
unfolding be_value
be_value-lt [] h = omega arith
be_value-lt (x ∷ xs) h = grind (arith, pow-suc 256 (length xs), be_value-lt xs h.1)

pub be_value-replicate : (n : ℕ) → be_value (replicate n 0) ≡ 0
unfolding be_value
be_value-replicate zero = refl
be_value-replicate (suc n) = omega (arith, be_value-replicate n)

pub get_or-replicate : (n i : ℕ) → ◌≡◌ {A = ℕ} (get_or (replicate n 0) i 0) 0
get_or-replicate zero i = refl
get_or-replicate (suc n) zero = refl
get_or-replicate (suc n) (suc i) = get_or-replicate n i

pub get_or-set_ne : (xs : List ℕ) (i j v : ℕ) → i ≢ j → get_or (set xs i v) j 0 ≡ get_or xs j 0
get_or-set_ne [] i j v h = refl
get_or-set_ne (x ∷ xs) zero zero v h = absurd (h refl)
get_or-set_ne (x ∷ xs) zero (suc j) v h = refl
get_or-set_ne (x ∷ xs) (suc i) zero v h = refl
get_or-set_ne (x ∷ xs) (suc i) (suc j) v h = get_or-set_ne xs i j v (λ e. h (ap suc e))

-- A byte at place `i`, with `k` bytes behind it, counts `256 ^ k`.
pub be_value-set :
    (xs : List ℕ) (i k v : ℕ)
    → i + suc k ≡ length xs
    → get_or xs i 0 ≡ 0
    → be_value (set xs i v) ≡ be_value xs + v * 256 ^ k
unfolding be_value
be_value-set [] i k v e z = absurd (omega arith)
be_value-set (x ∷ xs) zero k v e z =
    omega (arith, ap (λ (t : ℕ). v * 256 ^ t) at_end, ap (λ (t : ℕ). t * 256 ^ length xs) z)
  where
    at_end : length xs ≡ k
    at_end = omega arith
be_value-set (x ∷ xs) (suc i) k v e z =
    omega (
      arith,
      be_value-set xs i k v (omega arith) z,
      ap (λ (t : ℕ). x * 256 ^ t) (length-set xs i v),
    )

pub set-IsByte : (xs : List ℕ) (i v : ℕ) → IsByte v → All IsByte xs → All IsByte (set xs i v)
set-IsByte [] i v b h = tt
set-IsByte (x ∷ xs) zero v b h = (b, h.1)
set-IsByte (x ∷ xs) (suc i) v b h = (h.0, set-IsByte xs i v b h.1)

-- The test of `std::all_of` for zero bytes reads the number.
pub all-zero : (xs : List ℕ) → all (λ b. b == 0) xs ≡ (be_value xs == 0)
unfolding be_value
all-zero [] = refl
all-zero (zero ∷ xs) = ground (arith, all-zero xs)
all-zero (suc x ∷ xs) = ground (arith, one-le-pow (length xs) 256)
