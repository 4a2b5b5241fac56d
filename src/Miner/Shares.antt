-- ===== src/Miner/Shares.antt =====
-- src/miner.cpp: how the main loop submits shares and counts the pool's answers, over a Stratum V2
-- session. Times, which only end a session, and messages to the user are left out.
pub mod Answered
pub mod Balance
pub mod Ledger
pub mod Checked
mod Runs
use supryolo.Base.{
  ℕ, zero, suc, ◌+◌, ◌%◌, ◌^◌, List, [], ◌∷◌, ◌++◌, Bool, true, false, length, leb, ltb, ◌==◌,
  if◌then◌else◌, Option, none, some, Result, ok, err, ◌>>=◌, ◌>>◌, require, map,
}
use supryolo.Words.{store_le, overwrite}
use supryolo.Blake2b.{blake2b256}
use supryolo.Target.{meets}
use supryolo.Sv2.Session.{Session, valid, submit}
use supryolo.Sv2.Session.Settle.{Event, answer_accepted, answer_rejected, retarget, prompt}
use supryolo.Miner.Worker.{Found}

-- The counters of `DashboardView`, and of each `DeviceView`.
pub record Counts : Type 0 where
  pub accepted : ℕ
  pub rejected : ℕ
  pub stale : ℕ

-- What the loop keeps: the counters of all devices and of each, `view.block_candidates`, the row of
-- each pending share under its number, and `nextid`.
pub record Board : Type 0 where
  pub view : Counts
  pub devices : List Counts
  pub block_candidates : ℕ
  pub pending : List (ℕ × ℕ)
  pub nextid : ℕ

-- `++` of a uint64_t.
abbrev pub next : ℕ → ℕ
next n = (n + 1) % 2 ^ 64

-- The counter that an answer raises: `result` is true, or the error has this code.
unfoldable pub count : Bool → ℕ → Counts → Counts
count true code c = record c { accepted = next c.accepted }
count false code c =
    if code == 21
    then record c { stale = next c.stale }
    else record c { rejected = next c.rejected }

unfoldable pub count_at : ℕ → Bool → ℕ → List Counts → List Counts
count_at row result code [] = []
count_at zero result code (c ∷ cs) = count result code c ∷ cs
count_at (suc row) result code (c ∷ cs) = c ∷ count_at row result code cs

unfoldable pub find_row : ℕ → List (ℕ × ℕ) → Option ℕ
find_row id [] = none
find_row id ((i, row) ∷ m) = if i == id then some row else find_row id m

unfoldable pub erase : ℕ → List (ℕ × ℕ) → List (ℕ × ℕ)
erase id [] = []
erase id ((i, row) ∷ m) = if i == id then m else (i, row) ∷ erase id m

unfoldable pub settle_share : Option ℕ → ℕ → Bool → ℕ → Board → Board
settle_share none id result code b = b
settle_share (some row) id result code b = record b {
  view = count result code b.view;
  devices = count_at row result code b.devices;
  pending = erase id b.pending;
}

-- An answer to share `id`.
unfoldable pub respond : ℕ → Bool → ℕ → Board → Board
respond id result code b = settle_share (find_row id b.pending) id result code b

-- A message of the session; those without an id count nothing.
unfoldable pub on_event : Event → Board → Board
on_event (answer_accepted id) b = respond id true 0 b
on_event (answer_rejected id code reason) b = respond id false code b
on_event (retarget t) b = b
on_event prompt b = b

unfoldable pub on_events : List Event → Board → Board
on_events [] b = b
on_events (e ∷ out) b = on_events out (on_event e b)

-- The check before a share is sent: the hash must meet the job's target. It is also the block's if it
-- meets the network's.
unfoldable pub check_share : Found → Board → Result Board
check_share f b = do
  hash ← blake2b256 (overwrite f.job.work.header 32 (store_le f.nonce))
  require (meets hash f.job.work.target) "independent submit-time hash check failed"
  ok (
      if meets hash f.job.network_target
      then record b { block_candidates = next b.block_candidates }
      else b)

unfoldable pub send_share : Found → Session → Board → Result (Session × Board)
send_share f s b = do
  require (ltb (length b.pending) 4096) "too many outstanding shares"
  b1 ← check_share f b
  require (leb b.nextid 0xffff_ffff) "SV2 sequence exhausted; reconnecting"
  s1 ← submit f.job f.nonce b.nextid s
  ok (s1, record b1 { pending = b1.pending ++ ((b.nextid, f.row) ∷ []); nextid = b.nextid + 1 })

-- One round of the loop over the shares found; a share of a job that is not valid is dropped.
unfoldable pub submit_found : Found → Session → Board → Result (Session × Board)
submit_found f s b = let sent = send_share f s b in if valid f.job s then sent else ok (s, b)
