-- ===== src/Job/Decimal.antt =====
-- What `std::to_string` writes, read back.
use supryolo.Base.{
  ℕ, zero, suc, ◌+◌, ◌-◌, ◌*◌, ◌/◌, ◌%◌, ◌^◌, ◌≤◌, ◌<◌, ◌≡◌, refl, ap, ◌∙◌, arith, List, [], ◌∷◌,
  Bool, true, false, ◌&&◌, all, length, leb, ltb, Bool-cases, inl, inr, ltb→lt,
}
use supryolo.Job.{digits, to_string}
use native.Mathlib.Nat.{pow-suc}

abbrev pub is_digit : ℕ → Bool
is_digit c = leb b'0' c && leb c b'9'

-- The value of decimal digits behind a number.
unfoldable pub decimal : List ℕ → ℕ → ℕ
decimal [] n = n
decimal (c ∷ s) n = decimal s (n * 10 + (c - b'0'))

last_digit : (n : ℕ) → (leb b'0' (n % 10 + b'0') && leb (n % 10 + b'0') b'9') ≡ true
last_digit n = ground arith

one_digit : (n : ℕ) → n < 10 → 0 * 10 + (n % 10 + b'0' - b'0') ≡ n
one_digit n h = omega arith

not_small : (n : ℕ) → ltb n 10 ≡ false → 10 ≤ n
not_small n h = ground arith

both_parts : (n : ℕ) → n / 10 * 10 + (n % 10 + b'0' - b'0') ≡ n
both_parts n = omega arith

decimal-digits :
    (k n : ℕ) (s : List ℕ) → n < 10 ^ suc k → decimal (digits (suc k) n s) 0 ≡ decimal s n
unfolding digits decimal
decimal-digits zero n s h = elim (Bool-cases (ltb n 10)) [
  | inl small ↦ rw small (ap (decimal s) (one_digit n (ltb→lt n 10 small)))
  | inr large ↦ absurd (omega (arith, not_small n large))
]
decimal-digits (suc k) n s h = elim (Bool-cases (ltb n 10)) [
  | inl small ↦ rw small (ap (decimal s) (one_digit n (ltb→lt n 10 small)))
  | inr large ↦ rw large (
      decimal-digits k (n / 10) ((n % 10 + b'0') ∷ s) (omega (arith, pow-suc 10 (suc k)))
      ∙ ap (decimal s) (both_parts n))
]

all-digits : (k n : ℕ) (s : List ℕ) → all is_digit s ≡ true → all is_digit (digits k n s) ≡ true
unfolding digits
all-digits zero n s h = h
all-digits (suc k) n s h = elim (Bool-cases (ltb n 10)) [
  | inl small ↦ rw (small, last_digit n) h
  | inr large ↦ rw large (all-digits k (n / 10) ((n % 10 + b'0') ∷ s) (rw (last_digit n) h))
]

length-digits : (k n : ℕ) (s : List ℕ) → length s ≤ length (digits k n s)
unfolding digits
length-digits zero n s = omega arith
length-digits (suc k) n s = elim (Bool-cases (ltb n 10)) [
  | inl small ↦ rw small (omega arith)
  | inr large ↦ rw large (omega (arith, length-digits k (n / 10) ((n % 10 + b'0') ∷ s)))
]

-- A 64-bit number is written in digits, at least one, that have its value.
pub decimal-to_string :
    (n : ℕ)
    → n < 2 ^ 64
    → (decimal (to_string n) 0 ≡ n)
      × (all is_digit (to_string n) ≡ true)
      × (0 < length (to_string n))
unfolding to_string decimal digits
decimal-to_string n h = (
  decimal-digits 19 n [] (omega arith),
  all-digits 20 n [] refl,
  elim (Bool-cases (ltb n 10)) [
    | inl small ↦ rw small (omega arith)
    | inr large ↦ rw large (omega (arith, length-digits 19 (n / 10) ((n % 10 + b'0') ∷ [])))
  ],
)
