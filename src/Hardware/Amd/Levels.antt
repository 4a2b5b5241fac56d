-- ===== src/Hardware/Amd/Levels.antt =====
-- src/hardware/amd.cpp: the level that the search in a table of clocks finds.
use supryolo.Base.{
  ℕ, ◌≡◌, refl, ap, sym, ◌∙◌, arith, List, [], ◌∷◌, ◌++◌, true, inl, inr, Bool-cases, Option, none,
  some, ◌==◌, ok, ok-injective,
}
use supryolo.Job.{to_string}
use supryolo.Hardware.Text.{skip_spaces, read_number}
use supryolo.Hardware.Amd.{second, colon_value, entry, is_entry, find_level}

-- A line `index: mhz`, with anything behind the two numbers.
abbrev pub Listed : ℕ → ℕ → List ℕ → Type 0
Listed mhz index line =
    (after : List ℕ) × (more : List ℕ) × (end : List ℕ) × (read_number 32 line
      ≡ some (index, after))
    × (skip_spaces after ≡ b':' ∷ more)
    × (read_number 32 more ≡ some (mhz, end))

-- A text that is the index of one of the lines with these MHz.
abbrev pub IsLevel : ℕ → List (List ℕ) → List ℕ → Type 0
IsLevel mhz ls value =
    (index : ℕ) × (before : List (List ℕ)) × (line : List ℕ) × (after : List (List ℕ)) × (ls
      ≡ before ++ (line ∷ after))
    × Listed mhz index line
    × (value ≡ to_string index)

equal : (a b : ℕ) → (a == b) ≡ true → a ≡ b
equal a b h = ground arith

module _ (mhz index : ℕ) (line : List ℕ) where
  value-Listed :
      (i : ℕ) (after more : List ℕ) (r : Option (ℕ × List ℕ))
      → read_number 32 line ≡ some (i, after)
      → skip_spaces after ≡ b':' ∷ more
      → read_number 32 more ≡ r
      → is_entry mhz (some (i, second r)) ≡ some index
      → Listed mhz index line
  value-Listed i after more none number colon value found = cc
  value-Listed i after more (some (v, end)) number colon value found =
      elim (Bool-cases (v == mhz)) [
        | inr other ↦ cc (rw other at found)
        | inl same ↦ (
          after,
          more,
          end,
          number ∙ ap (λ j. some (j, after)) (some-injective (rw same at found)),
          colon,
          value ∙ ap (λ m. some (m, end)) (equal v mhz same),
        )
      ]
    where
      some-injective : {i j : ℕ} → ◌≡◌ {A = Option ℕ} (some i) (some j) → i ≡ j
      some-injective e = cc

  colon-Listed :
      (i : ℕ) (after s : List ℕ)
      → read_number 32 line ≡ some (i, after)
      → skip_spaces after ≡ s
      → is_entry mhz (some (i, colon_value s)) ≡ some index
      → Listed mhz index line
  colon-Listed i after [] number rest found = cc
  colon-Listed i after (c ∷ s) number rest found = elim (Bool-cases (c == b':')) [
    | inr other ↦ cc (rw other at found)
    | inl colon ↦
        value-Listed i after s (read_number 32 s) number
          (rest ∙ ap (λ c. c ∷ s) (equal c b':' colon)) refl (rw colon at found)
  ]

  entry-Listed :
      (r : Option (ℕ × List ℕ))
      → read_number 32 line ≡ r
      → is_entry mhz (entry r) ≡ some index
      → Listed mhz index line
  entry-Listed none number found = cc
  entry-Listed (some (i, after)) number found =
      colon-Listed i after (skip_spaces after) number refl found

-- What the search finds is the index of a line with these MHz.
pub find_level-IsLevel :
    (mhz : ℕ) (ls : List (List ℕ)) (value : List ℕ)
    → find_level mhz ls ≡ ok value
    → IsLevel mhz ls value
unfolding find_level
find_level-IsLevel mhz [] value e = cc
find_level-IsLevel mhz (l ∷ ls) value e =
    split_found (is_entry mhz (entry (read_number 32 l))) refl (find_level-IsLevel mhz ls value) e
  where
    split_found :
        (o : Option ℕ)
        → is_entry mhz (entry (read_number 32 l)) ≡ o
        → (find_level mhz ls ≡ ok value → IsLevel mhz ls value)
        → (elim o [ none ↦ find_level mhz ls | some index ↦ ok (to_string index) ]) ≡ ok value
        → IsLevel mhz (l ∷ ls) value
    split_found none other later e =
        let (index, before, line, after, place, listed, text) = later e in
        (index, l ∷ before, line, after, ap (λ ls. l ∷ ls) place, listed, text)
    split_found (some index) found later e = (
      index,
      [],
      l,
      ls,
      refl,
      entry-Listed mhz index l (read_number 32 l) refl found,
      sym (ok-injective e),
    )
