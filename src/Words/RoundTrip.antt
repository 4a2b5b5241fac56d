-- ===== src/Words/RoundTrip.antt =====
-- Words in memory and out again.
use supryolo.Base.{
  ℕ, zero, suc, ◌+◌, ◌*◌, ◌/◌, ◌%◌, ◌^◌, ◌≤◌, ◌<◌, ◌≡◌, refl, ap, arith, List, [], ◌∷◌, ◌++◌, ◌∙◌,
  length, take, drop, All, length-append, length-take, length-drop,
}
use supryolo.Base.Bytes.{IsByte, IsU64}
use supryolo.Words.{le_bytes, le_value, store_le, load_le, overwrite}
use native.Mathlib.Nat.{pow-suc}

pub length-le_bytes : (n x : ℕ) → length (le_bytes n x) ≡ n
unfolding le_bytes
length-le_bytes zero x = refl
length-le_bytes (suc n) x = ap suc (length-le_bytes n (x / 256))

pub le_bytes-IsByte : (n x : ℕ) → All IsByte (le_bytes n x)
unfolding le_bytes
le_bytes-IsByte zero x = tt
le_bytes-IsByte (suc n) x = (omega arith, le_bytes-IsByte n (x / 256))

pub le_value-le_bytes : (n x : ℕ) → x < 256 ^ n → le_value (le_bytes n x) ≡ x
unfolding le_bytes le_value
le_value-le_bytes zero x h = omega arith
le_value-le_bytes (suc n) x h =
    omega (arith, pow-suc 256 n, le_value-le_bytes n (x / 256) (omega (arith, pow-suc 256 n)))

pub le_bytes-le_value : (p : List ℕ) → All IsByte p → le_bytes (length p) (le_value p) ≡ p
unfolding le_bytes le_value
le_bytes-le_value [] h = refl
le_bytes-le_value (b ∷ p) h = ground (arith, low, high, le_bytes-le_value p h.1)
  where
    low : (le_value p * 256 + b) % 256 ≡ b
    low = omega arith

    high : (le_value p * 256 + b) / 256 ≡ le_value p
    high = omega arith

pub le_value-lt : (p : List ℕ) → All IsByte p → le_value p < 256 ^ length p
unfolding le_value
le_value-lt [] h = omega arith
le_value-lt (b ∷ p) h = omega (arith, pow-suc 256 (length p), le_value-lt p h.1)

pub take-length : (xs ys : List ℕ) (n : ℕ) → length xs ≡ n → take n (xs ++ ys) ≡ xs
take-length [] ys zero e = refl
take-length [] ys (suc n) e = absurd (omega arith)
take-length (x ∷ xs) ys zero e = absurd (omega arith)
take-length (x ∷ xs) ys (suc n) e = ap (◌∷◌ x) (take-length xs ys n (omega arith))

pub drop-length : (xs ys : List ℕ) (n : ℕ) → length xs ≡ n → drop n (xs ++ ys) ≡ ys
drop-length [] ys zero e = refl
drop-length [] ys (suc n) e = absurd (omega arith)
drop-length (x ∷ xs) ys zero e = absurd (omega arith)
drop-length (x ∷ xs) ys (suc n) e = drop-length xs ys n (omega arith)

-- A 64-bit word that was stored is loaded again, whatever follows it in memory.
pub load_le-store_le : (x : ℕ) (rest : List ℕ) → IsU64 x → load_le (store_le x ++ rest) ≡ x
unfolding load_le store_le
load_le-store_le x rest h =
    ap le_value (take-length (le_bytes 8 x) rest 8 (length-le_bytes 8 x))
    ∙ le_value-le_bytes 8 x (omega arith)

-- Eight bytes that were loaded are stored again as they were.
pub store_le-load_le :
    (p rest : List ℕ) → length p ≡ 8 → All IsByte p → store_le (load_le (p ++ rest)) ≡ p
unfolding load_le store_le
store_le-load_le p rest n h = rw (take-length p rest 8 n) (rw n at (le_bytes-le_value p h))

pub length-overwrite :
    (h b : List ℕ) (at : ℕ) → at + length b ≤ length h → length (overwrite h at b) ≡ length h
unfolding overwrite
length-overwrite h b at fits =
    length-append (take at h) (b ++ drop (at + length b) h)
    ∙ omega (
      arith,
      length-append b (drop (at + length b) h),
      length-take at h,
      length-drop (at + length b) h,
    )

pub drop-overwrite :
    (h b : List ℕ) (at : ℕ)
    → at + length b ≤ length h
    → drop at (overwrite h at b) ≡ b ++ drop (at + length b) h
unfolding overwrite
drop-overwrite h b at fits =
    drop-length (take at h) (b ++ drop (at + length b) h) at (omega (arith, length-take at h))
