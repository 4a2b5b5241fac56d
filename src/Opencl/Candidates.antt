-- ===== src/Opencl/Candidates.antt =====
-- src/opencl/runtime.cpp: what `OpenCl::scan` does with the nonces that the device found.
use supryolo.Base.{
  ℕ, zero, suc, ◌+◌, ◌-◌, ◌*◌, List, [], ◌∷◌, Bool, false, not, ◌||◌, take, leb, ltb, ◌==◌,
  if◌then◌else◌, Result, ok, require, ◌>>=◌, ◌>>◌,
}
use supryolo.Words.{store_le, overwrite}
use supryolo.Blake2b.{blake2b256}
use supryolo.Target.{meets}
use supryolo.Work.{Work}
use supryolo.Cpu.{Scan}

-- The loop over the leading bytes, the most significant first; on bytes `|` adds.
unfoldable pub big_endian : List ℕ → ℕ → ℕ
big_endian [] n = n
big_endian (b ∷ bs) n = big_endian bs (n * 256 + b)

unfoldable pub high : List ℕ → ℕ
high hash = big_endian (take 8 hash) 0

-- The vector of candidates that a read fills, from its place `i` on.
unfoldable pub words_from : ℕ → ℕ → (ℕ → ℕ) → List ℕ
words_from zero i memory = []
words_from (suc n) i memory = memory i ∷ words_from n (i + 1) memory

-- The body of the loop over the candidates: whether it keeps the nonce.
unfoldable pub check_candidate : Work → ℕ → ℕ → ℕ → Result Bool
check_candidate w start count nonce = do
  require (not (ltb nonce start || leb count (nonce - start))) "OpenCL nonce out of range"
  hash ← blake2b256 (overwrite w.header 32 (store_le nonce))
  require (leb (high hash) (high w.target)) "OpenCL candidate failed scalar validation"
  ok (meets hash w.target)

unfoldable pub check_candidates : Work → ℕ → ℕ → List ℕ → Result (List ℕ)
check_candidates w start count [] = ok []
check_candidates w start count (nonce ∷ candidates) =
    let rest = check_candidates w start count candidates in
    do
      keep ← check_candidate w start count nonce
      nonces ← rest
      ok (if keep then nonce ∷ nonces else nonces)

-- `std::sort`.
unfoldable pub insert : ℕ → List ℕ → List ℕ
insert x [] = x ∷ []
insert x (y ∷ ys) = let rest = insert x ys in if leb x y then x ∷ (y ∷ ys) else y ∷ rest

unfoldable pub sort : List ℕ → List ℕ
sort [] = []
sort (x ∷ xs) = insert x (sort xs)

-- Whether `std::adjacent_find` finds two equal neighbours.
unfoldable pub has_repeat : List ℕ → Bool
has_repeat [] = false
has_repeat (x ∷ []) = false
has_repeat (x ∷ y ∷ ys) = x == y || has_repeat (y ∷ ys)

-- All that follows the reads.
unfoldable pub validated : Work → ℕ → ℕ → List ℕ → Result Scan
validated w start count candidates = do
  nonces ← check_candidates w start count candidates
  require (not (has_repeat (sort nonces))) "duplicate OpenCL candidate"
  ok (record { hashes = count; nonces = sort nonces })
