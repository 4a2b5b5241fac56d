-- ===== src/Cpu/Runs.antt =====
-- The theorems at concrete inputs.
use mathlib.Core.List.{Mem}
use supryolo.Base.{ℕ, ◌+◌, ◌≡◌, refl, arith, replicate, ok, All}
use supryolo.Work.{Work, zero_header}
use supryolo.Cpu.{Scan, scan}
use supryolo.Cpu.Scanned.{Ascends, IsFound, scan-finds}

-- A target that every hash meets.
abbrev easy : Work
easy = record { header = zero_header; target = replicate 32 255 }

scan-finds_example :
    (r : Scan) × (scan easy 7 3 ≡ ok r)
    × (r.hashes ≡ 3)
    × Ascends 7 r.nonces
    × All (IsFound easy 7 (7 + 3)) r.nonces
    × ((n : ℕ) → IsFound easy 7 (7 + 3) n → Mem n r.nonces)
scan-finds_example = scan-finds easy 7 3 refl (omega arith) (omega arith)
