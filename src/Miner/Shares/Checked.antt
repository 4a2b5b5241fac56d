-- ===== src/Miner/Shares/Checked.antt =====
-- What the CPU finds passes the check before a share is sent.
use supryolo.Base.{
  ℕ, ◌+◌, ◌^◌, ◌≤◌, ◌<◌, ◌≡◌, refl, sym, subst, ◌∙◌, List, [], ◌∷◌, length, All, if◌then◌else◌, ok,
  ok-injective,
}
use supryolo.Words.{store_le, overwrite}
use supryolo.Blake2b.{blake2b256}
use supryolo.Target.{meets}
use supryolo.Job.{Job}
use supryolo.Cpu.{Scan, scan}
use supryolo.Cpu.Scanned.{Solves, IsFound, scan-finds}
use supryolo.Miner.Worker.{Found}
use supryolo.Miner.Shares.{Board, check_share, next}

abbrev pub found : Job → ℕ → ℕ → Found
found j row n = record { job = j; nonce = n; row = row }

-- The check passes, and it counts a block candidate when the hash meets the network's target too.
abbrev pub Passes : Job → ℕ → Board → ℕ → Type 0
Passes j row b n =
    (hash : List ℕ) × (blake2b256 (overwrite j.work.header 32 (store_le n)) ≡ ok hash)
    × (check_share (found j row n) b
        ≡ ok (
            if meets hash j.network_target
            then record b { block_candidates = next b.block_candidates }
            else b))

Solves-Passes : (j : Job) (row : ℕ) (b : Board) (n : ℕ) → Solves j.work n → Passes j row b n
unfolding check_share
Solves-Passes j row b n (hash, hashed, hit) = (hash, hashed, rw (hashed, hit) refl)

all_pass :
    (j : Job) (row lo hi : ℕ) (b : Board) (ns : List ℕ)
    → All (IsFound j.work lo hi) ns
    → All (Passes j row b) ns
all_pass j row lo hi b [] h = tt
all_pass j row lo hi b (n ∷ ns) ((_, _, solves), h) =
    (Solves-Passes j row b n solves, all_pass j row lo hi b ns h)

-- For a job with a header of 80 bytes: the check before submission fails for no nonce that a CPU scan
-- of that job has returned, and it counts a block candidate just when the hash meets the network's
-- target.
pub scan-Passes :
    (j : Job) (row start count : ℕ) (b : Board) (r : Scan)
    → length j.work.header ≡ 80
    → 0 < count
    → start + count ≤ 2 ^ 64
    → scan j.work start count ≡ ok r
    → All (Passes j row b) r.nonces
scan-Passes j row start count b r size some fits e =
    let (r', e', _, _, all_found, _) = scan-finds j.work start count size some fits in
    let same : r' ≡ r = ok-injective (sym e' ∙ e) in
    subst (λ r. All (Passes j row b) r.nonces) same
      (all_pass j row start (start + count) b r'.nonces all_found)
