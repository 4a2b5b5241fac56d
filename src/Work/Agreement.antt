-- ===== src/Work/Agreement.antt =====
-- The two protocols build one header.
use supryolo.Base.{
  ℕ, ◌+◌, ◌≡◌, refl, ◌∙◌, arith, List, [], ◌++◌, true, length, take, all, replicate, ◌==◌,
  length-append, append_assoc, All, All-append, ok, err, Result, Bool, false, ◌&&◌, ◌⊎◌, inl, inr,
  ◌≢◌, Bool-cases, sym, ◌∷◌,
}
use supryolo.Cpu.Scanned.{blake2b256-total}
use supryolo.Base.Bytes.{IsByte}
use supryolo.Words.{store_le, le_bytes}
use supryolo.Words.RoundTrip.{le_bytes-IsByte}
use supryolo.Hex.{unhex, hex}
use supryolo.Hex.RoundTrip.{unhex-hex}
use supryolo.Work.{sia_work, work_header, standard_work}

-- A hidden hash and a commitment, which are 32 bytes each, and the two parts of an extranonce, of any length.
pub record IsJob (hidden commitment e1 e2 : List ℕ) : Type 0 where
  pub hidden_size : length hidden ≡ 32
  pub hidden_bytes : All IsByte hidden
  pub commitment_size : length commitment ≡ 32
  pub commitment_bytes : All IsByte commitment
  pub extra1_bytes : All IsByte e1
  pub extra2_bytes : All IsByte e2

-- The first six bytes of the hidden hash are zero.
abbrev pub six_zeros : List ℕ → Bool
six_zeros hidden = all (λ b. b == 0) (take 6 hidden)

-- The first coinbase part that a V1 pool sends for a commitment.
abbrev pub coinbase : List ℕ → List ℕ
coinbase commitment = replicate 3 0 ++ (commitment ++ replicate 4 0)

coinbase-IsByte : (c : List ℕ) → All IsByte c → All IsByte (coinbase c)
coinbase-IsByte c h =
    All-append IsByte (replicate 3 0) (c ++ replicate 4 0) (omega arith)
      (All-append IsByte c (replicate 4 0) h (omega arith))

length-coinbase : (c : List ℕ) → length c ≡ 32 → length (coinbase c) ≡ 39
length-coinbase c h = omega (arith, length-append c (replicate 4 0))

unhex_nil : unhex [] ≡ ok []
unfolding unhex
unhex_nil = refl

-- The V1 job for the same parts: the texts of the hidden hash, the commitment between three and four zero
-- bytes, an empty second part, the two parts of the extranonce, and the eight bytes of the time.
abbrev pub sia_job : List ℕ → List ℕ → List ℕ → List ℕ → ℕ → Result (List ℕ)
sia_job hidden commitment e1 e2 ntime =
    sia_work (hex hidden) (hex (coinbase commitment)) [] (hex e1) (hex e2) (hex (store_le ntime))

module _ (hidden commitment e1 e2 : List ℕ) (ntime : ℕ) (j : IsJob hidden commitment e1 e2) where
  same_header :
      length e1 + length e2 ≡ 12
      → six_zeros hidden ≡ true
      → sia_job hidden commitment e1 e2 ntime ≡ standard_work hidden commitment (e1 ++ e2) ntime
  unfolding sia_work standard_work work_header store_le
  same_header size zeros = rw (
    unhex-hex hidden j.hidden_bytes,
    unhex-hex (coinbase commitment) (coinbase-IsByte commitment j.commitment_bytes),
    unhex-hex e1 j.extra1_bytes,
    unhex-hex e2 j.extra2_bytes,
    unhex-hex (le_bytes 8 ntime) (le_bytes-IsByte 8 ntime),
    unhex_nil,
    j.hidden_size,
    length-coinbase commitment j.commitment_size,
    size,
    zeros,
    length-append e1 e2 ∙ size,
    append_assoc commitment (replicate 4 0) (e1 ++ e2),
  )

  sia_ok :
      length e1 + length e2 ≡ 12 → (h : List ℕ) × (sia_job hidden commitment e1 e2 ntime ≡ ok h)
  unfolding sia_work store_le
  sia_ok size =
      let (root, hashed) = blake2b256-total (0 ∷ (coinbase commitment ++ (e1 ++ e2))) (
        omega (
          arith,
          length-append (coinbase commitment) (e1 ++ e2),
          length-append e1 e2,
          length-coinbase commitment j.commitment_size,
        )) in
      rw
        (
          unhex-hex hidden j.hidden_bytes,
          unhex-hex (coinbase commitment) (coinbase-IsByte commitment j.commitment_bytes),
          unhex-hex e1 j.extra1_bytes,
          unhex-hex e2 j.extra2_bytes,
          unhex-hex (le_bytes 8 ntime) (le_bytes-IsByte 8 ntime),
          unhex_nil,
          j.hidden_size,
          length-coinbase commitment j.commitment_size,
          size,
          hashed,
        )
        (_, refl)

  sia_refuses :
      (length e1 + length e2 == 12) ≡ false
      → sia_job hidden commitment e1 e2 ntime ≡ err "unsupported BTCB2 Sia job layout"
  unfolding sia_work store_le
  sia_refuses size = rw (
    unhex-hex hidden j.hidden_bytes,
    unhex-hex (coinbase commitment) (coinbase-IsByte commitment j.commitment_bytes),
    unhex-hex e1 j.extra1_bytes,
    unhex-hex e2 j.extra2_bytes,
    unhex-hex (le_bytes 8 ntime) (le_bytes-IsByte 8 ntime),
    unhex_nil,
    j.hidden_size,
    length-coinbase commitment j.commitment_size,
    size,
  )

  standard_refuses :
      (length (e1 ++ e2) == 12 && six_zeros hidden) ≡ false
      → standard_work hidden commitment (e1 ++ e2) ntime
        ≡ err "invalid BTCB2 SV2 hidden hash or extranonce length"
  unfolding standard_work
  standard_refuses bad = rw bad refl

-- The two protocols on one hidden hash and one commitment, of 32 bytes each, with an extranonce in two parts of
-- any length. With 12 bytes of extranonce and six zero bytes at the front of the hidden hash, both build the
-- same header. With 12 bytes and another hidden hash, V1 builds a header and V2 throws. With another length,
-- both throw, each its own text.
pub sia_work-standard_work :
    (hidden commitment e1 e2 : List ℕ) (ntime : ℕ)
    → IsJob hidden commitment e1 e2
    → ((length e1 + length e2 ≡ 12)
        × (six_zeros hidden ≡ true)
        × (h : List ℕ) × (sia_job hidden commitment e1 e2 ntime ≡ ok h)
        × (standard_work hidden commitment (e1 ++ e2) ntime ≡ ok h))
      ⊎ (((length e1 + length e2 ≡ 12)
            × (six_zeros hidden ≡ false)
            × (h : List ℕ) × (sia_job hidden commitment e1 e2 ntime ≡ ok h)
            × (standard_work hidden commitment (e1 ++ e2) ntime
                ≡ err "invalid BTCB2 SV2 hidden hash or extranonce length"))
          ⊎ ((length e1 + length e2 ≢ 12)
              × (sia_job hidden commitment e1 e2 ntime ≡ err "unsupported BTCB2 Sia job layout")
              × (standard_work hidden commitment (e1 ++ e2) ntime
                  ≡ err "invalid BTCB2 SV2 hidden hash or extranonce length")))
sia_work-standard_work hidden commitment e1 e2 ntime j =
    elim (Bool-cases (length e1 + length e2 == 12)) [
      | inr other ↦ inr (
          inr (
            differ (length e1 + length e2) other,
            sia_refuses hidden commitment e1 e2 ntime j other,
            standard_refuses hidden commitment e1 e2 ntime j (rw (length-append e1 e2, other) refl),
          ))
      | inl twelve ↦
          (let size = equal (length e1 + length e2) twelve in
            let (h, built) = sia_ok hidden commitment e1 e2 ntime j size in
            elim (Bool-cases (six_zeros hidden)) [
              | inl zeros ↦ inl (
                size,
                zeros,
                h,
                built,
                sym (same_header hidden commitment e1 e2 ntime j size zeros) ∙ built,
              )
              | inr more ↦ inr (
                  inl (
                    size,
                    more,
                    h,
                    built,
                    standard_refuses hidden commitment e1 e2 ntime j
                        (rw (length-append e1 e2, size, more) refl),
                  ))
            ])
    ]
  where
    equal : (n : ℕ) → (n == 12) ≡ true → n ≡ 12
    equal n h = ground arith

    differ : (n : ℕ) → (n == 12) ≡ false → n ≢ 12
    differ n h e = ground arith
