-- ===== src/Work/Runs.antt =====
-- The theorems at concrete inputs.
use supryolo.Base.{
  ℕ, ◌+◌, ◌≡◌, refl, arith, List, [], ◌∷◌, ◌++◌, length, replicate, Result, ok, err, true, false,
  ◌⊎◌, ◌≢◌,
}
use supryolo.Words.{overwrite}
use supryolo.Hex.{unhex}
use supryolo.Blake2b.{blake2b256}
use supryolo.Work.{sia_work, standard_work}
use supryolo.Work.Layout.{sia_work-ok}
use supryolo.Work.Agreement.{IsJob, six_zeros, sia_job, sia_work-standard_work}

small-IsJob : IsJob (replicate 32 0) (replicate 32 5) (replicate 4 1) (replicate 8 2)
small-IsJob = record {
  hidden_size = refl;
  hidden_bytes = omega arith;
  commitment_size = refl;
  commitment_bytes = omega arith;
  extra1_bytes = omega arith;
  extra2_bytes = omega arith;
}

abbrev Agreed : List ℕ → List ℕ → List ℕ → List ℕ → ℕ → Type 0
Agreed hidden commitment e1 e2 ntime =
    ((length e1 + length e2 ≡ 12)
      × (six_zeros hidden ≡ true)
      × (h : List ℕ) × (sia_job hidden commitment e1 e2 ntime ≡ ok h)
      × (standard_work hidden commitment (e1 ++ e2) ntime ≡ ok h))
    ⊎ (((length e1 + length e2 ≡ 12)
          × (six_zeros hidden ≡ false)
          × (h : List ℕ) × (sia_job hidden commitment e1 e2 ntime ≡ ok h)
          × (standard_work hidden commitment (e1 ++ e2) ntime
              ≡ err "invalid BTCB2 SV2 hidden hash or extranonce length"))
        ⊎ ((length e1 + length e2 ≢ 12)
            × (sia_job hidden commitment e1 e2 ntime ≡ err "unsupported BTCB2 Sia job layout")
            × (standard_work hidden commitment (e1 ++ e2) ntime
                ≡ err "invalid BTCB2 SV2 hidden hash or extranonce length")))

sia_work-standard_work_example :
    Agreed (replicate 32 0) (replicate 32 5) (replicate 4 1) (replicate 8 2) 100
sia_work-standard_work_example =
    sia_work-standard_work (replicate 32 0) (replicate 32 5) (replicate 4 1) (replicate 8 2) 100
      small-IsJob

abbrev zeros : ℕ → List ℕ
zeros n = replicate n b'0'

abbrev header_or : Result (List ℕ) → List ℕ
header_or (ok h) = h
header_or (err why) = []

abbrev small_header : List ℕ
small_header = header_or (sia_work (zeros 64) (zeros 78) [] (zeros 8) (zeros 16) (zeros 16))

small_header_ok :
    sia_work (zeros 64) (zeros 78) [] (zeros 8) (zeros 16) (zeros 16) ≡ ok small_header
unfolding sia_work unhex blake2b256 overwrite
small_header_ok = refl

sia_work-ok_example :
    (p : List ℕ) × (a : List ℕ) × (e1 : List ℕ) × (e2 : List ℕ) × (t : List ℕ) × (root : List ℕ)
    × (unhex (zeros 64) ≡ ok p)
    × (unhex (zeros 78) ≡ ok a)
    × (unhex [] ≡ ok [])
    × (unhex (zeros 8) ≡ ok e1)
    × (unhex (zeros 16) ≡ ok e2)
    × (unhex (zeros 16) ≡ ok t)
    × (length p ≡ 32)
    × (length a ≡ 39)
    × (length e1 + length e2 ≡ 12)
    × (length t ≡ 8)
    × (blake2b256 (0 ∷ (a ++ (e1 ++ e2))) ≡ ok root)
    × (small_header ≡ p ++ (replicate 8 0 ++ (t ++ root)))
sia_work-ok_example =
    sia_work-ok (zeros 64) (zeros 78) [] (zeros 8) (zeros 16) (zeros 16) small_header
      small_header_ok
