-- ===== src/Miner/Worker.antt =====
-- src/miner.cpp: a worker thread's loop, in the parts that run under the lock and those between. The
-- backend's `scan` is an argument.
pub mod Disjoint
mod Runs
use supryolo.Base.{
  ℕ, ◌+◌, ◌-◌, ◌*◌, ◌%◌, ◌^◌, List, [], ◌∷◌, ◌++◌, map, length, Bool, true, false, not, leb, ltb,
  ◌==◌, if◌then◌else◌, Option, none, some, Result, ok, err, ◌>>=◌, ◌>>◌, require,
}
use supryolo.Words.{store_le, overwrite}
use supryolo.Work.{Work}
use supryolo.Job.{Job}
use supryolo.Cpu.{Scan}
use supryolo.Sv2.Partition.{partition}

pub record Found : Type 0 where
  pub job : Job
  pub nonce : ℕ
  pub row : ℕ

-- `shared_generation`, `shared_cursor` and `found`.
pub record Shared : Type 0 where
  pub generation : ℕ
  pub cursor : ℕ
  pub found : List Found

-- A thread's own variables, with its `Slot`.
pub record Worker : Type 0 where
  pub index : ℕ
  pub row : ℕ
  pub batch : ℕ
  pub generation : ℕ
  pub cursor : ℕ
  pub hashes : ℕ

-- A job of another generation starts at cursor 0.
abbrev pub renew : Job → Shared → Shared
renew j s =
    if s.generation == j.generation then s else record s { generation = j.generation; cursor = 0 }

-- The first section under the lock, with a Stratum V2 job: the cursor that is reserved.
unfoldable pub reserve : Job → ℕ → Shared → Result (Shared × ℕ)
reserve j batch s = do
  p ← partition j.time32 0 (renew j s).cursor batch
  ok (record (renew j s) { cursor = ((renew j s).cursor + p.count) % 2 ^ 64 }, (renew j s).cursor)

unfoldable pub take_work : Job → ℕ → Shared → Result (Shared × ℕ)
take_work j batch s = if j.sv2 then reserve j batch s else ok (s, 0)

abbrev pub restart : Job → Worker → Worker
restart j w =
    if j.generation == w.generation then w else record w { generation = j.generation; cursor = 0 }

-- The job as it is scanned, the first nonce and the number of nonces.
abbrev pub Range : Type 0
Range = Job × ℕ × ℕ

-- With Stratum V2.
unfoldable pub place_reserved : Job → ℕ → ℕ → Result Range
place_reserved j reserved batch = do
  p ← partition j.time32 0 reserved batch
  ok (
    record j {
      time32 = p.ntime;
      work = record j.work { header = overwrite j.work.header 40 (store_le p.ntime) };
    },
    p.nonce,
    p.count,
  )

-- With Stratum V1. The cursor is below 2^56, as no batch is empty (src/main.cpp), so `|` adds.
unfoldable pub place_slot : Job → ℕ → ℕ → ℕ → Result Range
place_slot j index cursor batch = do
  require (leb cursor (2 ^ 56 - batch)) "nonce partition exhausted"
  ok (j, index * 2 ^ 56 % 2 ^ 64 + cursor, batch)

unfoldable pub place : Worker → Job → ℕ → Result Range
place w j reserved =
    if j.sv2 then place_reserved j reserved w.batch else place_slot j w.index w.cursor w.batch

-- The second section under the lock.
unfoldable pub report : Job → ℕ → List ℕ → Shared → Result Shared
report j row nonces s = do
  require (leb (length s.found + length nonces) 8192) "share queue overflow"
  ok (record s { found = s.found ++ map (λ n. record { job = j; nonce = n; row = row }) nonces })

-- Between the two sections, from the job and the cursor that was reserved.
unfoldable pub scan_range :
    (Work → ℕ → ℕ → Result Scan) → Worker → Job → ℕ → Result (Worker × Job × List ℕ)
scan_range scan w j reserved = do
  (job, start, count) ← place (restart j w) j reserved
  r ← scan job.work start count
  ok (
    record (restart j w) {
      cursor = ((restart j w).cursor + r.hashes) % 2 ^ 64;
      hashes = ((restart j w).hashes + r.hashes) % 2 ^ 64;
    },
    job,
    r.nonces,
  )
