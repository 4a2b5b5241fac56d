-- ===== src/Hardware/Text.antt =====
-- What src/hardware/amd.cpp uses of the standard streams: numbers, words and lines of a text.
use supryolo.Base.{
  ℕ, ◌+◌, ◌-◌, ◌*◌, ◌%◌, ◌^◌, List, [], ◌∷◌, Bool, true, false, ◌&&◌, ◌||◌, Option, none, some, leb,
  ltb, ◌==◌, if◌then◌else◌,
}
use supryolo.Job.Decimal.{is_digit}

abbrev pub is_space : ℕ → Bool
is_space c = c == b' ' || (leb 9 c && leb c 13)

unfoldable pub skip_spaces : List ℕ → List ℕ
skip_spaces [] = []
skip_spaces (c ∷ s) = let rest = skip_spaces s in if is_space c then rest else c ∷ s

-- The digits that a text begins with, as a number behind `n`, and the rest.
unfoldable pub read_digits : ℕ → List ℕ → ℕ × List ℕ
read_digits n [] = (n, [])
read_digits n (c ∷ s) =
    let more = read_digits (n * 10 + (c - b'0')) s in if is_digit c then more else (n, c ∷ s)

abbrev pub starts_digit : List ℕ → Bool
starts_digit [] = false
starts_digit (c ∷ s) = is_digit c

-- `>>` into an unsigned number of `w` bits: one that does not fit fails, and a minus wraps around.
abbrev pub unsigned : ℕ → List ℕ → Option (ℕ × List ℕ)
unsigned w s = let r = read_digits 0 s in if starts_digit s && ltb r.0 (2 ^ w) then some r else none

abbrev pub negate : ℕ → Option (ℕ × List ℕ) → Option (ℕ × List ℕ)
negate w none = none
negate w (some (n, s)) = some ((2 ^ w - n) % 2 ^ w, s)

unfoldable pub signed : ℕ → List ℕ → Option (ℕ × List ℕ)
signed w [] = none
signed w (c ∷ s) =
    if c == b'-'
    then negate w (unsigned w s)
    else if c == b'+'
    then unsigned w s
    else unsigned w (c ∷ s)

unfoldable pub read_number : ℕ → List ℕ → Option (ℕ × List ℕ)
read_number w s = signed w (skip_spaces s)

-- `>>` into a text.
unfoldable pub until_space : List ℕ → List ℕ
until_space [] = []
until_space (c ∷ s) = let rest = until_space s in if is_space c then [] else c ∷ rest

unfoldable pub first_word : List ℕ → List ℕ
first_word s = until_space (skip_spaces s)

-- The lines that `std::getline` gives; an empty rest is none.
abbrev pub cons_line : ℕ → List (List ℕ) → List (List ℕ)
cons_line c [] = (c ∷ []) ∷ []
cons_line c (l ∷ ls) = (c ∷ l) ∷ ls

unfoldable pub lines : List ℕ → List (List ℕ)
lines [] = []
lines (c ∷ s) = let rest = lines s in if c == 10 then [] ∷ rest else cons_line c rest

-- `std::regex_match` of a sequence of character classes.
unfoldable pub fits : List (ℕ → Bool) → List ℕ → Bool
fits [] [] = true
fits [] (c ∷ s) = false
fits (p ∷ ps) [] = false
fits (p ∷ ps) (c ∷ s) = p c && fits ps s

abbrev pub is_hex : ℕ → Bool
is_hex c = is_digit c || ((leb b'a' c && leb c b'f') || (leb b'A' c && leb c b'F'))

abbrev pub is_octal : ℕ → Bool
is_octal c = leb b'0' c && leb c b'7'

abbrev pub pci_pattern : List (ℕ → Bool)
pci_pattern =
    is_hex
    ∷ is_hex
    ∷ is_hex
    ∷ is_hex
    ∷ (λ c. c == b':')
    ∷ is_hex
    ∷ is_hex
    ∷ (λ c. c == b':')
    ∷ is_hex
    ∷ is_hex
    ∷ (λ c. c == b'.')
    ∷ is_octal
    ∷ []
