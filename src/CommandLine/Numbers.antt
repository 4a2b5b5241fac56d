-- ===== src/CommandLine/Numbers.antt =====
-- Lists of numbers are read back as they are written.
use supryolo.Base.{
  ℕ, ◌%◌, ◌^◌, ◌≤◌, ◌<◌, ◌≡◌, refl, ap, arith, List, [], ◌∷◌, ◌++◌, Bool, true, false, ◌&&◌, all,
  All, length, leb, ltb, ◌==◌, ok,
}
use supryolo.Job.{to_string}
use supryolo.Job.Decimal.{is_digit, decimal-to_string}
use supryolo.CommandLine.{integer, cons_first, split, integers, numbers}

integer-to_string :
    (n maximum : ℕ) → n ≤ maximum → maximum < 2 ^ 64 → integer (to_string n) maximum ≡ ok n
unfolding integer
integer-to_string n maximum h w =
    let (value, ds, some) = decimal-to_string n (omega arith) in
    rw
      (
        lt_true 0 (length (to_string n)) some,
        ds,
        value,
        lt_true n (2 ^ 64) (omega arith),
        le_true n maximum h,
      )
      refl
  where
    lt_true : (a b : ℕ) → a < b → ltb a b ≡ true
    lt_true a b h = ground arith

    le_true : (a b : ℕ) → a ≤ b → leb a b ≡ true
    le_true a b h = ground arith

digit_no_comma : (c : ℕ) (b : Bool) → (is_digit c && b) ≡ true → ((c == b',') ≡ false) × (b ≡ true)
digit_no_comma c b h = ground arith

-- The text of numbers with commas between.
abbrev pub join : ℕ → List ℕ → List ℕ
join n [] = to_string n
join n (m ∷ ns) = to_string n ++ (b',' ∷ join m ns)

split-digits : (ds : List ℕ) → all is_digit ds ≡ true → split ds ≡ ds ∷ []
unfolding split
split-digits [] h = refl
split-digits (c ∷ ds) h =
    let (no_comma, rest) = digit_no_comma c (all is_digit ds) h in
    rw no_comma (ap (cons_first c) (split-digits ds rest))

split-comma : (ds s : List ℕ) → all is_digit ds ≡ true → split (ds ++ (b',' ∷ s)) ≡ ds ∷ split s
unfolding split
split-comma [] s h = refl
split-comma (c ∷ ds) s h =
    let (no_comma, rest) = digit_no_comma c (all is_digit ds) h in
    rw no_comma (ap (cons_first c) (split-comma ds s rest))

abbrev pub UpTo : ℕ → ℕ → Type 0
UpTo maximum n = n ≤ maximum

integers-join :
    (n : ℕ) (ns : List ℕ) (maximum : ℕ)
    → maximum < 2 ^ 32
    → All (UpTo maximum) (n ∷ ns)
    → integers (split (join n ns)) maximum ≡ ok (n ∷ ns)
unfolding integers
integers-join n [] maximum w (h, _) =
    let (_, ds, _) = decimal-to_string n (omega arith) in
    let narrow : n % 2 ^ 32 ≡ n = omega arith in
    rw (split-digits (to_string n) ds, integer-to_string n maximum h (omega arith), narrow) refl
integers-join n (m ∷ ns) maximum w (h, hs) =
    let (_, ds, _) = decimal-to_string n (omega arith) in
    let narrow : n % 2 ^ 32 ≡ n = omega arith in
    rw
      (
        split-comma (to_string n) (join m ns) ds,
        integer-to_string n maximum h (omega arith),
        integers-join m ns maximum w hs,
        narrow,
      )
      refl

-- Numbers up to a maximum that fits an `unsigned` of 32 bits, at least one, written in decimal with commas
-- between, are read as they were.
pub numbers-join :
    (n : ℕ) (ns : List ℕ) (maximum : ℕ)
    → maximum < 2 ^ 32
    → All (UpTo maximum) (n ∷ ns)
    → numbers (join n ns) maximum ≡ ok (n ∷ ns)
unfolding numbers
numbers-join n ns maximum w h =
    let same : maximum % 2 ^ 32 ≡ maximum = omega arith in rw same (integers-join n ns maximum w h)
