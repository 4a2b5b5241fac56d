-- ===== src/Work.antt =====
-- include/yolo/core.hpp: `Work`. src/coin.cpp: `sia_work`. src/sv2.cpp: `work_header` and
-- `standard_work`. A header is 80 bytes: 32 of the hidden hash, 8 of nonce, 8 of time, 32 of root.
pub mod Layout
pub mod Agreement
mod Runs
use supryolo.Base.{
  ℕ, List, [], ◌∷◌, ◌++◌, ◌+◌, Bool, not, ◌&&◌, ◌||◌, length, take, all, replicate, ◌==◌, Result,
  ok, err, ◌>>=◌, ◌>>◌, require,
}
use supryolo.Hex.{unhex}
use supryolo.Words.{store_le, overwrite}
use supryolo.Blake2b.{blake2b256}

pub record Work : Type 0 where
  pub header : List ℕ
  pub target : List ℕ

-- `Header w{}`.
abbrev pub zero_header : List ℕ
zero_header = replicate 80 0

-- The job of a Stratum V1 pool, from its hexadecimal texts.
unfoldable pub sia_work : List ℕ → List ℕ → List ℕ → List ℕ → List ℕ → List ℕ → Result (List ℕ)
sia_work prev c1 c2 en1 en2 time = do
  p ← unhex prev
  a ← unhex c1
  b ← unhex c2
  e1 ← unhex en1
  e2 ← unhex en2
  t ← unhex time
  require
      (length p == 32
        && length a == 39
        && length b == 0
        && length e1 + length e2 == 12
        && length t == 8)
      "unsupported BTCB2 Sia job layout"
  root ← blake2b256 (0 ∷ (a ++ (e1 ++ e2)))
  ok (overwrite (overwrite (overwrite zero_header 0 p) 40 t) 48 root)

unfoldable pub work_header : List ℕ → List ℕ → ℕ → List ℕ
work_header hidden root t =
    overwrite (overwrite (overwrite zero_header 0 hidden) 40 (store_le t)) 48 root

-- The job of a Stratum V2 pool.
unfoldable pub standard_work : List ℕ → List ℕ → List ℕ → ℕ → Result (List ℕ)
standard_work hidden commitment extranonce ntime = do
  require (length extranonce == 12 && all (λ b. b == 0) (take 6 hidden))
      "invalid BTCB2 SV2 hidden hash or extranonce length"
  root ← blake2b256 (replicate 4 0 ++ (commitment ++ (replicate 4 0 ++ extranonce)))
  ok (work_header hidden root ntime)
