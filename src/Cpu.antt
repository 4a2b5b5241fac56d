-- ===== src/Cpu.antt =====
-- include/yolo/core.hpp: `Scan`. src/cpu.cpp: `Cpu::scan`. The time that a scan took is left out.
pub mod Scanned
mod Runs
use supryolo.Base.{
  ℕ, zero, suc, ◌+◌, ◌-◌, List, [], ◌∷◌, leb, ltb, ◌==◌, not, ◌&&◌, if◌then◌else◌, Result, ok, err,
  ◌>>=◌, ◌>>◌, require,
}
use supryolo.Words.{store_le, overwrite}
use supryolo.Blake2b.{blake2b256}
use supryolo.Target.{meets}
use supryolo.Work.{Work}

pub record Scan : Type 0 where
  pub hashes : ℕ
  pub nonces : List ℕ

-- `k` rounds of the loop, from nonce `n` on; the header keeps what the round before wrote.
unfoldable pub scan_from : ℕ → ℕ → List ℕ → List ℕ → Result (List ℕ)
scan_from zero n h target = ok []
scan_from (suc k) n h target =
    let written = overwrite h 32 (store_le n) in
    let rest = scan_from k (n + 1) written target in
    do
      hash ← blake2b256 written
      nonces ← rest
      ok (if meets hash target then n ∷ nonces else nonces)

unfoldable pub scan : Work → ℕ → ℕ → Result Scan
scan w start count = do
  require (not (count == 0) && leb start (0xffff_ffff_ffff_ffff - (count - 1)))
      "nonce range overflow"
  nonces ← scan_from count start w.header w.target
  ok (record { hashes = count; nonces = nonces })
