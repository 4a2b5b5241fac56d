-- ===== src/Target/Compact.antt =====
-- `compact_target` against the definition of the compact form: mantissa * 256 ^ (exponent - 3).
use supryolo.Base.{
  ℕ, zero, suc, ◌+◌, ◌-◌, ◌*◌, ◌/◌, ◌%◌, ◌^◌, ◌≤◌, ◌<◌, ◌≡◌, refl, ap, arith, List, ◌⊎◌, inl, inr,
  false, length, get_or, set, All, leb, ◌==◌, if◌then◌else◌, length-set, Result, ok, err, String,
  Bool-cases, ==_iff, ◌&&◌, ◌∙◌, le→leb,
}
use supryolo.Base.Bytes.{IsByte}
use supryolo.Target.{store_down, place_byte, place_bytes, zero_hash, unpack_mantissa}
use supryolo.Target.Value.{
  be_value, be_value-lt, be_value-set, be_value-replicate, get_or-replicate, get_or-set_ne,
  set-IsByte,
}
use native.Mathlib.Nat.{pow-suc}
use native.Mathlib.Decide.{dec_le}

-- The number that the compact form stands for.
unfoldable pub compact_value : ℕ → ℕ → ℕ
compact_value exponent mantissa =
    if leb exponent 3 then mantissa / 256 ^ (3 - exponent) else mantissa * 256 ^ (exponent - 3)

pow_two_more : (n : ℕ) → 256 ^ suc (suc n) ≡ 65536 * 256 ^ n
pow_two_more n = omega (arith, pow-suc 256 n, pow-suc 256 (suc n))

-- The three bytes of a mantissa, the first at place `p`.
abbrev three : ℕ → ℕ → List ℕ → List ℕ
three p m z = set (set (set z p (m / 65536 % 256)) (p + 1) (m / 256 % 256)) (p + 2) (m % 256)

be_value-three :
    (p n m : ℕ) (z : List ℕ)
    → p + suc (suc (suc n)) ≡ length z
    → ((i : ℕ) → get_or z i 0 ≡ 0)
    → be_value z ≡ 0
    → m < 2 ^ 24
    → be_value (three p m z) ≡ m * 256 ^ n
be_value-three p n m z e zs v h = omega (
  arith,
  be_value-set z p (suc (suc n)) (m / 65536 % 256) e (zs p),
  be_value-set (set z p (m / 65536 % 256)) (p + 1) (suc n) (m / 256 % 256)
      (omega (arith, length-set z p (m / 65536 % 256)))
      (omega (arith, zs (p + 1), get_or-set_ne z p (p + 1) (m / 65536 % 256) (omega arith))),
  be_value-set (set (set z p (m / 65536 % 256)) (p + 1) (m / 256 % 256)) (p + 2) n (m % 256)
      (omega (
        arith,
        length-set z p (m / 65536 % 256),
        length-set (set z p (m / 65536 % 256)) (p + 1) (m / 256 % 256),
      ))
      (omega (
        arith,
        zs (p + 2),
        get_or-set_ne z p (p + 2) (m / 65536 % 256) (omega arith),
        get_or-set_ne (set z p (m / 65536 % 256)) (p + 1) (p + 2) (m / 256 % 256) (omega arith),
      )),
  ap (λ (t : ℕ). m / 65536 % 256 * t) (pow_two_more n),
  ap (λ (t : ℕ). m / 256 % 256 * t) (pow-suc 256 n),
  ap (λ (t : ℕ). t * 256 ^ n) (digits_of m h),
)
  where
    digits_of : (k : ℕ) → k < 2 ^ 24 → k ≡ k / 65536 % 256 * 65536 + k / 256 % 256 * 256 + k % 256
    digits_of k h = omega arith

-- What a result says of the number `v`: the 32 bytes of it, or an error where 32 bytes are too few.
abbrev pub Fits : ℕ → Result (List ℕ) → Type 0
Fits v r =
    ((t : List ℕ) × (r ≡ ok t) × (length t ≡ 32) × All IsByte t × (be_value t ≡ v) × (v < 2 ^ 256))
    ⊎ ((why : String) × (r ≡ err why) × (2 ^ 256 ≤ v))

zero_hash-IsByte : All IsByte zero_hash
zero_hash-IsByte = omega arith

three-IsByte : (p m : ℕ) (z : List ℕ) → All IsByte z → All IsByte (three p m z)
three-IsByte p m z h =
    set-IsByte (set (set z p (m / 65536 % 256)) (p + 1) (m / 256 % 256)) (p + 2) (m % 256)
      (omega arith)
      (set-IsByte (set z p (m / 65536 % 256)) (p + 1) (m / 256 % 256) (omega arith)
        (set-IsByte z p (m / 65536 % 256) (omega arith) h))

length-three : (p m : ℕ) (z : List ℕ) → length (three p m z) ≡ length z
length-three p m z = omega (
  arith,
  length-set z p (m / 65536 % 256),
  length-set (set z p (m / 65536 % 256)) (p + 1) (m / 256 % 256),
  length-set (set (set z p (m / 65536 % 256)) (p + 1) (m / 256 % 256)) (p + 2) (m % 256),
)

place_bytes-three :
    (e m : ℕ) (z : List ℕ) → 4 ≤ e → e ≤ 32 → place_bytes e m z ≡ ok (three (32 - e) m z)
unfolding place_bytes place_byte
place_bytes-three e m z lo hi = ground (arith, second, third)
  where
    second : 33 - e ≡ 32 - e + 1
    second = omega arith

    third : 34 - e ≡ 32 - e + 2
    third = omega arith

-- Exponents whose three bytes all lie inside the 32.
place_bytes_inside :
    (e m : ℕ) (z : List ℕ)
    → 4 ≤ e
    → e ≤ 32
    → m < 2 ^ 24
    → length z ≡ 32
    → All IsByte z
    → ((i : ℕ) → get_or z i 0 ≡ 0)
    → be_value z ≡ 0
    → Fits (m * 256 ^ (e - 3)) (place_bytes e m z)
place_bytes_inside e m z lo hi h len bytes zs v =
    let number = be_value-three (32 - e) (e - 3) m z (omega arith) zs v h in
    let all_bytes = three-IsByte (32 - e) m z bytes in
    let size = length-three (32 - e) m z in
    inl (
      three (32 - e) m z,
      place_bytes-three e m z lo hi,
      omega (arith, size),
      all_bytes,
      number,
      omega (
        arith,
        number,
        be_value-lt (three (32 - e) m z) all_bytes,
        ap (λ (n : ℕ). 256 ^ n) (size ∙ len),
      ),
    )

place_bytes_33 : (m : ℕ) → m < 2 ^ 24 → Fits (m * 256 ^ 30) (place_bytes 33 m zero_hash)
unfolding place_bytes place_byte be_value
place_bytes_33 m h = elim (Bool-cases (m / 65536 % 256 == 0)) [
  | inl small ↦ inl (
    set (set zero_hash 0 (m / 256 % 256)) 1 (m % 256),
    rw small (ground arith),
    refl,
    omega arith,
    omega (arith, (==_iff _ 0).0 small),
    omega (arith, (==_iff _ 0).0 small),
  )
  | inr large ↦ inr ("compact target overflow", rw large, ground arith)
]

place_bytes_34 : (m : ℕ) → m < 2 ^ 24 → Fits (m * 256 ^ 31) (place_bytes 34 m zero_hash)
unfolding place_bytes place_byte be_value
place_bytes_34 m h = elim (Bool-cases (m / 65536 % 256 == 0 && m / 256 % 256 == 0)) [
  | inl small ↦
      inl (set zero_hash 0 (m % 256), ground arith, refl, omega arith, ground arith, ground arith)
  | inr large ↦ inr ("compact target overflow", ground arith, ground arith)
]

small-Fits :
    (e m : ℕ)
    → e ≤ 3
    → m < 2 ^ 24
    → Fits (m / 256 ^ (3 - e)) (ok (store_down 4 31 (m / 2 ^ (8 * (3 - e))) zero_hash))
unfolding store_down be_value
small-Fits zero m hi h = inl (_, refl, refl, omega arith, omega arith, omega arith)
small-Fits (suc zero) m hi h = inl (_, refl, refl, omega arith, omega arith, omega arith)
small-Fits (suc (suc zero)) m hi h = inl (_, refl, refl, omega arith, omega arith, omega arith)
small-Fits (suc (suc (suc zero))) m hi h =
    inl (_, refl, refl, omega arith, omega arith, omega arith)
small-Fits (suc (suc (suc (suc e)))) m hi h = absurd (omega arith)

-- Both loops together: the 32 bytes of the number, or an error where it needs more.
pub unpack_mantissa-Fits :
    (e m : ℕ) → e ≤ 34 → m < 2 ^ 24 → Fits (compact_value e m) (unpack_mantissa e m)
unfolding unpack_mantissa compact_value
unpack_mantissa-Fits e m hi h = elim (dec_le e 3) [
  | yes low ↦ rw (le→leb e 3 low) (small-Fits e m low h)
  | no high ↦ rw (not-le→leb e high) (elim (dec_le e 32) [
    | yes inside ↦
        place_bytes_inside e m zero_hash (omega arith) inside h refl zero_hash-IsByte
          (get_or-replicate 32) (be_value-replicate 32)
    | no over ↦ elim (dec_le e 33) [
      | yes at33 ↦ rw (exactly 33 (omega arith) at33) (place_bytes_33 m h)
      | no at34 ↦ rw (exactly 34 (omega arith) hi) (place_bytes_34 m h)
    ]
  ])
]
  where
    exactly : (n : ℕ) → n ≤ e → e ≤ n → e ≡ n
    exactly n a b = omega arith

    not-le→leb : (n : ℕ) → ¬ (n ≤ 3) → leb n 3 ≡ false
    not-le→leb n h = ground arith
