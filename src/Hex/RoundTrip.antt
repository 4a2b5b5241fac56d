-- ===== src/Hex/RoundTrip.antt =====
-- `hex` and `unhex` undo each other, up to the case of the digits.
use supryolo.Base.{ℕ, ◌+◌, ◌*◌, ◌/◌, ◌%◌, ◌<◌, ◌≡◌, refl, arith, List, [], ◌∷◌, ◌&&◌}
use supryolo.Base.{
  ok, length, get_or, All, leb, ltb, if◌then◌else◌, map, Bool-cases, inl, inr, ◌==◌, >>=-eq-ok,
  subst, ok-injective, ==_iff,
}
use supryolo.Base.Bytes.{IsByte}
use supryolo.Base.Tables.{for_below, for_below-eq}
use supryolo.Hex.{nib, unhex_pairs, unhex, hex, hex_digits}

hex_digits-get : (n : ℕ) → n < 16 → get_or hex_digits n 0 ≡ (if ltb n 10 then n + 48 else n + 87)
unfolding for_below
hex_digits-get n h =
    for_below-eq 16 (λ i. get_or hex_digits i 0) (λ i. if ltb i 10 then i + 48 else i + 87) n refl h

nib-digit : (n : ℕ) → n < 16 → nib (get_or hex_digits n 0) ≡ ok n
unfolding nib
nib-digit n h = rw (hex_digits-get n h) (ground arith)

-- ASCII upper case letters to lower case.
unfoldable pub to_lower : ℕ → ℕ
to_lower c = if leb b'A' c && leb c b'Z' then c + 32 else c

nib-lt : (c n : ℕ) → nib c ≡ ok n → n < 16
unfolding nib
nib-lt c n h = ground arith

digit-nib : (c n : ℕ) → nib c ≡ ok n → get_or hex_digits n 0 ≡ to_lower c
unfolding nib to_lower
digit-nib c n h = rw (hex_digits-get n (nib-lt c n h)) (ground arith)

unhex_pairs-hex : (b : List ℕ) → All IsByte b → unhex_pairs (hex b) ≡ ok b
unfolding unhex_pairs hex
unhex_pairs-hex [] h = refl
unhex_pairs-hex (v ∷ b) h =
    rw (nib-digit (v / 16) (omega arith), nib-digit (v % 16) (omega arith), unhex_pairs-hex b h.1)
      (ground arith)

length-hex : (b : List ℕ) → length (hex b) ≡ 2 * length b
unfolding hex
length-hex [] = refl
length-hex (v ∷ b) = omega (arith, length-hex b)

-- Decoding the hexadecimal text of a byte sequence gives the sequence back.
pub unhex-hex : (b : List ℕ) → All IsByte b → unhex (hex b) ≡ ok b
unfolding unhex
unhex-hex b h = ground (arith, length-hex b, unhex_pairs-hex b h)

-- What the source of the bytes `b` looks like: two digits a byte.
abbrev Reads : List ℕ → List ℕ → Type 0
Reads s b = (hex b ≡ map to_lower s) × (length s ≡ 2 * length b) × All IsByte b

Reads-cons :
    (c d hi lo : ℕ) (s b : List ℕ)
    → nib c ≡ ok hi
    → nib d ≡ ok lo
    → Reads s b
    → Reads (c ∷ d ∷ s) ((hi * 16 + lo) ∷ b)
unfolding hex
Reads-cons c d hi lo s b e1 e2 r = (
  ground (
    arith,
    nib-lt c hi e1,
    nib-lt d lo e2,
    hi-part,
    lo-part,
    digit-nib c hi e1,
    digit-nib d lo e2,
    r.0,
  ),
  omega (arith, r.1),
  (omega (arith, nib-lt c hi e1, nib-lt d lo e2), r.2),
)
  where
    hi-part : (hi * 16 + lo) / 16 ≡ hi
    hi-part = omega (arith, nib-lt d lo e2)

    lo-part : (hi * 16 + lo) % 16 ≡ lo
    lo-part = omega (arith, nib-lt d lo e2)

unhex_pairs-Reads : (s b : List ℕ) → length s % 2 ≡ 0 → unhex_pairs s ≡ ok b → Reads s b
unfolding unhex_pairs
unhex_pairs-Reads [] b even h = subst (Reads []) (ok-injective h) (unfold hex in (refl, refl, tt))
unhex_pairs-Reads (c ∷ []) b even h = absurd (omega arith)
unhex_pairs-Reads (c ∷ d ∷ s) b even h =
    let (hi, e1, h1) = >>=-eq-ok (nib c) _ h in
    let (lo, e2, h2) = >>=-eq-ok (nib d) _ h1 in
    let (rest, e3, h3) = >>=-eq-ok (unhex_pairs s) _ h2 in
    subst (Reads (c ∷ d ∷ s)) (ok-injective h3)
      (Reads-cons c d hi lo s rest e1 e2 (unhex_pairs-Reads s rest (omega arith) e3))

-- Whatever `unhex` accepts is the hexadecimal text of its result, up to the case of the letters:
-- it has two digits for each byte, and every element of the result is a byte.
pub hex-unhex :
    (s b : List ℕ)
    → unhex s ≡ ok b
    → (hex b ≡ map to_lower s) × (length s ≡ 2 * length b) × All IsByte b
unfolding unhex
hex-unhex s b h = elim (Bool-cases (length s % 2 == 0)) [
  | inl even ↦ unhex_pairs-Reads s b ((==_iff _ 0).0 even) (rw even at h)
  | inr odd ↦ cc (odd, h)
]
