-- ===== src/Target/Network.antt =====
-- `compact_target` as a whole: which texts it accepts, and the number that it gives.
use supryolo.Base.{
  ℕ, ◌+◌, ◌*◌, ◌/◌, ◌%◌, ◌^◌, ◌≤◌, ◌<◌, ◌≡◌, ◌≢◌, ap, arith, List, [], ◌∷◌, inl, inr, Bool, true,
  false, not, ◌||◌, length, All, all, ltb, ◌==◌, Result, ok, ◌>>=◌, ◌>>◌, require, ok-injective,
  subst, Bool-cases, >>=-eq-ok, get_or,
}
use supryolo.Base.Bytes.{IsByte}
use supryolo.Hex.{unhex}
use supryolo.Hex.RoundTrip.{hex-unhex}
use supryolo.Target.{unpack_mantissa, expand_compact, compact_target}
use supryolo.Target.Value.{be_value, all-zero}
use supryolo.Target.Compact.{compact_value, Fits, unpack_mantissa-Fits}

abbrev pub mantissa : ℕ → ℕ → ℕ → ℕ
mantissa b1 b2 b3 = b1 * 65536 + b2 * 256 + b3

-- The compact forms of a 256-bit positive number.
pub record IsCompact (e m : ℕ) : Type 0 where
  pub exponent : e ≤ 34
  pub sign : m < 2 ^ 23
  pub positive : 0 < compact_value e m
  pub bounded : compact_value e m < 2 ^ 256

-- The 32 bytes of a number.
pub record IsHashOf (v : ℕ) (t : List ℕ) : Type 0 where
  pub size : length t ≡ 32
  pub bytes : All IsByte t
  pub value : be_value t ≡ v

-- The tests of the header in plain arithmetic.
abbrev header : ℕ → ℕ → Bool
header e m = not (m / 0x800000 % 2 == 1 || m == 0 || ltb 34 e)

header_test : (e m : ℕ) → m < 2 ^ 24 → header e m ≡ true → (m < 2 ^ 23) × (m ≢ 0) × (e ≤ 34)
header_test e m h t = ground arith

compact_value-zero : (e : ℕ) → compact_value e 0 ≡ 0
unfolding compact_value
compact_value-zero e = ground arith

header_good : (e m : ℕ) → IsCompact e m → header e m ≡ true
header_good e m c = ground (arith, c.sign, c.exponent, positive)
  where
    positive : m ≢ 0
    positive z = omega (arith, c.positive, ap (compact_value e) z, compact_value-zero e)

abbrev is_zero : List ℕ → Bool
is_zero = all (λ b. b == 0)

nonzero-pos : (v : ℕ) (out : List ℕ) → be_value out ≡ v → is_zero out ≡ false → 0 < v
nonzero-pos v out e z = ground (arith, all-zero out)

pos-nonzero : (v : ℕ) (out : List ℕ) → be_value out ≡ v → 0 < v → is_zero out ≡ false
pos-nonzero v out e p = ground (arith, all-zero out)

-- `compact_target` on the decoded bytes.
abbrev expand_bytes : List ℕ → Result (List ℕ)
expand_bytes bytes = do
  require (length bytes == 4) "invalid nbits"
  expand_compact (get_or bytes 0 0)
      (mantissa (get_or bytes 1 0) (get_or bytes 2 0) (get_or bytes 3 0))

-- After the header test: what the rest makes of the bytes that the loops give.
nonzero-ok :
    (v : ℕ) (r : Result (List ℕ)) (t : List ℕ)
    → Fits v r
    → (do out ← r; require (not (all (λ b. b == 0) out)) "zero compact target"; ok out) ≡ ok t
    → (0 < v) × (v < 2 ^ 256) × IsHashOf v t
nonzero-ok v r t (inr (why, e, large)) h = cc (rw e at h)
nonzero-ok v r t (inl (out, e, size, bytes, value, small)) h = elim (Bool-cases (is_zero out)) [
  | inl zeros ↦ cc (rw (e, zeros) at h)
  | inr other ↦ (
    nonzero-pos v out value other,
    small,
    subst (IsHashOf v) (ok-injective (rw (e, other) at h))
        (record { size = size; bytes = bytes; value = value }),
  )
]

nonzero_accepts :
    (v : ℕ) (r : Result (List ℕ))
    → Fits v r
    → 0 < v
    → v < 2 ^ 256
    → (t : List ℕ) × ((do
      out ← r
      require (not (all (λ b. b == 0) out)) "zero compact target"
      ok out)
        ≡ ok t)
nonzero_accepts v r (inl (out, e, size, bytes, value, small)) p q =
    (out, rw (e, pos-nonzero v out value p))
nonzero_accepts v r (inr (why, e, large)) p q = absurd (omega arith)

expand_compact-ok :
    (e m : ℕ) (t : List ℕ)
    → m < 2 ^ 24
    → expand_compact e m ≡ ok t
    → IsCompact e m × IsHashOf (compact_value e m) t
unfolding expand_compact
expand_compact-ok e m t h r = elim (Bool-cases (header e m)) [
  | inl good ↦
      let (sign, ne, hi) = header_test e m h good in
      let (pos, small, hash) =
        nonzero-ok (compact_value e m) (unpack_mantissa e m) t (unpack_mantissa-Fits e m hi h)
          (rw good at r) in
      (record { exponent = hi; sign = sign; positive = pos; bounded = small }, hash)
  | inr bad ↦ cc (rw bad at r)
]

expand_compact_accepts :
    (e m : ℕ) → m < 2 ^ 24 → IsCompact e m → (t : List ℕ) × (expand_compact e m ≡ ok t)
unfolding expand_compact
expand_compact_accepts e m h c = rw (header_good e m c) (
    nonzero_accepts (compact_value e m) (unpack_mantissa e m)
      (unpack_mantissa-Fits e m c.exponent h) c.positive c.bounded)

-- A compact form and the 32 bytes of its number: whatever `compact_target` accepts is the
-- hexadecimal text of four bytes that are such a form, and the result is those 32 bytes.
pub compact_target-ok :
    (nbits t : List ℕ)
    → compact_target nbits ≡ ok t
    → (e : ℕ) × (b1 : ℕ) × (b2 : ℕ) × (b3 : ℕ) × (unhex nbits ≡ ok (e ∷ b1 ∷ b2 ∷ b3 ∷ []))
      × IsCompact e (mantissa b1 b2 b3)
      × IsHashOf (compact_value e (mantissa b1 b2 b3)) t
unfolding compact_target
compact_target-ok nbits t h =
    let (bytes, e, h1) = >>=-eq-ok (unhex nbits) _ h in four bytes (hex-unhex nbits bytes e).2 e h1
  where
    four :
        (bytes : List ℕ)
        → All IsByte bytes
        → unhex nbits ≡ ok bytes
        → expand_bytes bytes ≡ ok t
        → (e : ℕ) × (b1 : ℕ) × (b2 : ℕ) × (b3 : ℕ) × (unhex nbits ≡ ok (e ∷ b1 ∷ b2 ∷ b3 ∷ []))
          × IsCompact e (mantissa b1 b2 b3)
          × IsHashOf (compact_value e (mantissa b1 b2 b3)) t
    four (e ∷ b1 ∷ b2 ∷ b3 ∷ []) all_bytes eq r =
        let (c, hash) = expand_compact-ok e (mantissa b1 b2 b3) t (omega arith) r in
        (e, b1, b2, b3, eq, c, hash)
    four [] all_bytes eq r = cc
    four (e ∷ []) all_bytes eq r = cc
    four (e ∷ b1 ∷ []) all_bytes eq r = cc
    four (e ∷ b1 ∷ b2 ∷ []) all_bytes eq r = cc
    four (e ∷ b1 ∷ b2 ∷ b3 ∷ b4 ∷ rest) all_bytes eq r = ground arith

-- Conversely, the hexadecimal text of every compact form of a positive 256-bit number is accepted,
-- and gives the 32 bytes of that number.
pub compact_target_accepts :
    (nbits : List ℕ) (e b1 b2 b3 : ℕ)
    → unhex nbits ≡ ok (e ∷ b1 ∷ b2 ∷ b3 ∷ [])
    → IsCompact e (mantissa b1 b2 b3)
    → (t : List ℕ) × (compact_target nbits ≡ ok t)
      × IsHashOf (compact_value e (mantissa b1 b2 b3)) t
unfolding compact_target
compact_target_accepts nbits e b1 b2 b3 eq c =
    let (t, r) = expand_compact_accepts e (mantissa b1 b2 b3) in_range c in
    (t, rw eq r, (expand_compact-ok e (mantissa b1 b2 b3) t in_range r).1)
  where
    in_range : mantissa b1 b2 b3 < 2 ^ 24
    in_range = omega (arith, c.sign)
