-- ===== src/CommandLine.antt =====
-- src/main.cpp: numbers and lists of numbers among the options.
pub mod Numbers
pub mod Options
mod Runs
use supryolo.Base.{
  ℕ, ◌+◌, ◌-◌, ◌*◌, ◌%◌, ◌^◌, List, [], ◌∷◌, Bool, ◌&&◌, all, length, leb, ltb, ◌==◌, if◌then◌else◌,
  Result, ok, err, ◌>>=◌, ◌>>◌, require,
}
use supryolo.Job.Decimal.{is_digit, decimal}

-- `std::stoull` on digits alone reads all of them, or finds the number out of range.
unfoldable pub integer : List ℕ → ℕ → Result ℕ
integer s maximum = do
  require (ltb 0 (length s) && all is_digit s) "expected nonnegative integer"
  require (ltb (decimal s 0) (2 ^ 64)) "stoull"
  require (leb (decimal s 0) maximum) "integer out of range"
  ok (decimal s 0)

-- The texts between commas, of which there is always one.
abbrev pub cons_first : ℕ → List (List ℕ) → List (List ℕ)
cons_first c [] = (c ∷ []) ∷ []
cons_first c (f ∷ fields) = (c ∷ f) ∷ fields

unfoldable pub split : List ℕ → List (List ℕ)
split [] = [] ∷ []
split (c ∷ s) = let rest = split s in if c == b',' then [] ∷ rest else cons_first c rest

-- `push_back` narrows each to an `unsigned`.
unfoldable pub integers : List (List ℕ) → ℕ → Result (List ℕ)
integers [] maximum = ok []
integers (f ∷ fields) maximum = do
  n ← integer f maximum
  rest ← integers fields maximum
  ok (n % 2 ^ 32 ∷ rest)

-- The maximum is an `unsigned`.
unfoldable pub numbers : List ℕ → ℕ → Result (List ℕ)
numbers text maximum = integers (split text) (maximum % 2 ^ 32)
