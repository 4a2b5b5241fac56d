-- ===== src/Target/Meets.antt =====
-- `meets` compares numbers.
use supryolo.Base.{
  ℕ, ◌+◌, ◌*◌, ◌^◌, ◌≤◌, ◌<◌, ◌≡◌, refl, ap, arith, List, [], ◌∷◌, length, All, ltb, leb,
}
use supryolo.Base.Bytes.{IsByte}
use supryolo.Target.{lex_less, meets}
use supryolo.Target.Value.{be_value, be_value-lt}

-- A smaller leading byte outweighs everything behind it.
leading-lt : (x y p : ℕ) → x < y → x * p + p ≤ y * p
leading-lt x y p h = grind arith

lex_less-ltb :
    (xs ys : List ℕ)
    → length xs ≡ length ys
    → All IsByte xs
    → All IsByte ys
    → lex_less xs ys ≡ ltb (be_value xs) (be_value ys)
unfolding lex_less be_value
lex_less-ltb [] [] e h k = refl
lex_less-ltb [] (y ∷ ys) e h k = absurd (omega arith)
lex_less-ltb (x ∷ xs) [] e h k = absurd (omega arith)
lex_less-ltb (x ∷ xs) (y ∷ ys) e h k = ground (
  arith,
  ap (λ (n : ℕ). y * 256 ^ n) same,
  ap (λ (n : ℕ). 256 ^ n) same,
  leading-lt x y (256 ^ length xs),
  leading-lt y x (256 ^ length xs),
  be_value-lt xs h.1,
  be_value-lt ys k.1,
  lex_less-ltb xs ys same h.1 k.1,
)
  where
    same : length xs ≡ length ys
    same = omega arith

-- For a hash and a target of the same length, `meets` is the comparison of the two numbers.
pub meets-leb :
    (h t : List ℕ)
    → length h ≡ length t
    → All IsByte h
    → All IsByte t
    → meets h t ≡ leb (be_value h) (be_value t)
unfolding meets
meets-leb h t e hb tb = ground (arith, lex_less-ltb t h)
