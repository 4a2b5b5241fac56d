-- ===== src/Miner/Shares/Runs.antt =====
-- A concrete session of the main loop, and the theorems at concrete inputs.
use supryolo.Base.{
  ◌+◌, ◌^◌, ◌≤◌, ◌≡◌, refl, arith, List, [], ◌∷◌, ◌++◌, length, Result, ok, err, none, replicate,
  All,
}
use supryolo.Base.Bytes.{codes}
use supryolo.Job.{Job, empty_job}
use supryolo.Hex.{hex, unhex}
use supryolo.Words.{overwrite, store_le, le_bytes}
use supryolo.Blake2b.{blake2b256}
use supryolo.Target.{lex_less, compact_target, expand_compact, unpack_mantissa}
use supryolo.Work.{standard_work, work_header}
use supryolo.Sv2.Types.{NewJob, PrevHash, setup_success, open_success, new_job, prev_hash}
use supryolo.Sv2.Encode.{setup, string, integer, open_standard, submit_standard, words}
use supryolo.Sv2.Session.{
  Session, init, start, handle, submit, valid, activate, find_job, capped, store_job, switch_block,
  on_setup_success, on_open_success, on_new_job, on_prev_hash, on_target, on_accepted, on_rejected,
  is_stale,
}
use supryolo.Sv2.Session.Settle.{
  contains, contains_key, remove, insert, settle, text_eq, split_up_to, count_up_to,
}
use supryolo.Work.{zero_header}
use supryolo.Cpu.{Scan}
use supryolo.Cpu.Scanned.{scan-finds}
use supryolo.Miner.Worker.{Found}
use supryolo.Miner.Shares.{Counts, Board, on_events, on_event, submit_found}
use supryolo.Miner.Shares.Balance.{keys, total}
use supryolo.Miner.Shares.Ledger.{Round, receives, finds, mine, begin_board, mine-balanced}
use supryolo.Miner.Shares.Checked.{Passes, scan-Passes}

abbrev ok_or {ℓ} : {A : Type ℓ} → Result A → A → A
ok_or (ok a) b = a
ok_or (err why) b = b

abbrev fresh : Session
fresh = init (codes "pool") 3333 (codes "worker") 0

abbrev started : Session
started = ok_or (start fresh) fresh

abbrev future_job : NewJob
future_job = record { channel = 7; job = 1; ntime = none; version = 2; root = replicate 32 5 }

abbrev first_block : PrevHash
first_block = record {
  channel = 7;
  job = 1;
  hash = replicate 32 0;
  ntime = 100;
  nbits = 0x1d00ffff;
}

abbrev opening : List Round
opening =
    receives (setup_success (record { version = 2; flags = 1 }))
    ∷ receives (
        open_success (record {
          request = 1;
          channel = 7;
          target = replicate 32 255;
          prefix = replicate 4 9;
          group = 8;
        }))
    ∷ receives (new_job future_job)
    ∷ receives (prev_hash first_block)
    ∷ []

abbrev no_counts : Counts
no_counts = record { accepted = 3; rejected = 0; stale = 1 }

-- The share of a job that the session does not know.
abbrev unknown : Found
unknown = record { job = empty_job; nonce = 5; row = 0 }

abbrev rounds : List Round
rounds = opening ++ (finds unknown ∷ [])

abbrev start_board : Board
start_board = begin_board no_counts [] 0

abbrev ended : Session × Board
ended = ok_or (mine rounds started start_board) (started, start_board)

started_ok : start (init (codes "pool") 3333 (codes "worker") 0) ≡ ok started
unfolding init start setup string integer le_bytes
started_ok = refl

ended_ok : mine rounds started start_board ≡ ok (ended.0, ended.1)
unfolding init start setup string integer le_bytes mine on_events on_event submit_found handle
    on_setup_success on_open_success on_new_job on_prev_hash on_target on_accepted on_rejected
    is_stale submit valid open_standard submit_standard words find_job activate store_job
    switch_block capped lex_less compact_target expand_compact unpack_mantissa unhex hex
    standard_work work_header blake2b256 overwrite store_le settle contains contains_key remove
    insert text_eq split_up_to count_up_to
ended_ok = refl

mine-balanced_example :
    (keys ended.1.pending ≡ ended.0.pending)
    × (total ended.1.view + length ended.1.pending + 10 ≡ total no_counts + ended.1.nextid)
    × (ended.1.nextid ≤ 2 ^ 32)
mine-balanced_example =
    mine-balanced (codes "pool") 3333 (codes "worker") 0 no_counts [] 0 rounds started ended.0
      ended.1 started_ok ended_ok (omega arith)

-- A job with a target that every hash meets.
abbrev easy : Job
easy = record empty_job { work = record { header = zero_header; target = replicate 32 255 } }

abbrev easy_scan : Scan
easy_scan = (scan-finds easy.work 7 3 refl (omega arith) (omega arith)).0

scan-Passes_example : All (Passes easy 0 start_board) easy_scan.nonces
scan-Passes_example =
    scan-Passes easy 0 7 3 start_board easy_scan refl (omega arith) (omega arith)
      (scan-finds easy.work 7 3 refl (omega arith) (omega arith)).1
