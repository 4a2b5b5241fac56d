-- ===== src/Sv2/Session/Runs.antt =====
-- A concrete session, and the theorems at concrete inputs.
use mathlib.Core.List.{Perm, Nodup}
use supryolo.Base.{
  ◌+◌, ◌^◌, ◌%◌, ◌≤◌, ◌≡◌, refl, arith, List, [], ◌∷◌, ◌++◌, true, false, length, Result, ok, err,
  Option, none, some, replicate, take,
}
use supryolo.Base.Bytes.{codes}
use supryolo.Job.{Job, empty_job}
use supryolo.Hex.{hex, unhex}
use supryolo.Words.{overwrite, store_le, le_bytes}
use supryolo.Blake2b.{blake2b256}
use supryolo.Target.{lex_less, compact_target, expand_compact, unpack_mantissa}
use supryolo.Work.{standard_work, work_header}
use supryolo.Sv2.Types.{
  NewJob, PrevHash, Accepted, setup_success, open_success, new_job, prev_hash, accepted, rejected,
}
use supryolo.Sv2.Encode.{setup, string, integer, open_standard, submit_standard, words}
use supryolo.Sv2.Session.{
  Session, Stored, init, start, handle, submit, valid, activate, find_job, maximum, capped,
  store_job, switch_block, on_setup_success, on_open_success, on_new_job, on_prev_hash, on_target,
  on_accepted, on_rejected, is_stale,
}
use supryolo.Sv2.Session.Settle.{
  Event, answer_accepted, contains, contains_key, remove, insert, settle, text_eq, split_up_to,
  count_up_to,
}
use supryolo.Sv2.Session.Settle.Laws.{answered, Above, Settles, settle-Settles}
use supryolo.Sv2.Session.Answers.{Action, receives, submits, step, run, submitted, handle-answered}
use supryolo.Sv2.Session.Order.{run-answered}
use supryolo.Sv2.Session.Mineable.{run-mineable}
use supryolo.Sv2.Session.Safety.{Keyed}
use supryolo.Sv2.Session.Expiry.{prev_hash-expires, new_job-keeps}

abbrev ok_or {ℓ} : {A : Type ℓ} → Result A → A → A
ok_or (ok a) b = a
ok_or (err why) b = b

abbrev job_or : Option Job → Job
job_or none = empty_job
job_or (some j) = j

abbrev fresh : Session
fresh = init (codes "pool") 3333 (codes "worker") 0

abbrev started : Session
started = ok_or (start fresh) fresh

abbrev future_job : NewJob
future_job = record { channel = 7; job = 1; ntime = none; version = 2; root = replicate 32 5 }

abbrev first_block : PrevHash
first_block = record {
  channel = 7;
  job = 1;
  hash = replicate 32 0;
  ntime = 100;
  nbits = 0x1d00ffff;
}

abbrev opening : List Action
opening =
    receives (setup_success (record { version = 2; flags = 1 }))
    ∷ receives (
        open_success (record {
          request = 1;
          channel = 7;
          target = replicate 32 255;
          prefix = replicate 4 9;
          group = 8;
        }))
    ∷ receives (new_job future_job)
    ∷ receives (prev_hash first_block)
    ∷ []

abbrev opened : Session
opened = (ok_or (run opening started) (started, [])).0

abbrev mined : Job
mined = job_or opened.current

abbrev shares : List Action
shares =
    submits mined 5 10
    ∷ submits mined 6 11
    ∷ submits mined 7 12
    ∷ receives (rejected (record { channel = 7; sequence = 11; reason = codes "stale-share" }))
    ∷ receives
        (accepted (record { channel = 7; last_sequence = 10; count = 1; difficulty_sum = 1 }))
    ∷ []

abbrev ended : Session × List Event
ended = ok_or (run (opening ++ shares) started) (started, [])

started_ok : start (init (codes "pool") 3333 (codes "worker") 0) ≡ ok started
unfolding init start setup string integer le_bytes
started_ok = refl

ended_ok : run (opening ++ shares) started ≡ ok ended
unfolding init start setup string integer le_bytes run step handle on_setup_success on_open_success
    on_new_job on_prev_hash on_target on_accepted on_rejected is_stale submit valid open_standard
    submit_standard words find_job activate store_job switch_block capped lex_less compact_target
    expand_compact unpack_mantissa unhex hex standard_work work_header blake2b256 overwrite store_le
    settle contains contains_key remove insert text_eq split_up_to count_up_to
ended_ok = refl

answered_and_pending : (answered ended.1 ≡ 11 ∷ 10 ∷ []) × (ended.0.pending ≡ 12 ∷ [])
unfolding init start setup string integer le_bytes run step handle on_setup_success on_open_success
    on_new_job on_prev_hash on_target on_accepted on_rejected is_stale submit valid open_standard
    submit_standard words find_job activate store_job switch_block capped lex_less compact_target
    expand_compact unpack_mantissa unhex hex standard_work work_header blake2b256 overwrite store_le
    settle contains contains_key remove insert text_eq split_up_to count_up_to
answered_and_pending = (refl, refl)

settle-Settles_example :
    Settles
      (record { last = 11; count = 2 } ∷ [])
      (10 ∷ 11 ∷ 12 ∷ [])
      ([], 12 ∷ [], answer_accepted 10 ∷ answer_accepted 11 ∷ [])
unfolding settle count_up_to split_up_to
settle-Settles_example =
    settle-Settles (record { last = 11; count = 2 } ∷ []) 0 (10 ∷ 11 ∷ 12 ∷ [])
      ([], 12 ∷ [], answer_accepted 10 ∷ answer_accepted 11 ∷ []) (omega arith) refl

run-answered_example :
    Above 0 (submitted (opening ++ shares))
    × Perm (submitted (opening ++ shares)) (answered ended.1 ++ ended.0.pending)
    × Nodup (answered ended.1 ++ ended.0.pending)
run-answered_example =
    run-answered (codes "pool") 3333 (codes "worker") 0 (opening ++ shares) started ended.0 ended.1
      started_ok ended_ok

run-mineable_example :
    ((j : Job)
      → ended.0.current ≡ some j
      → (valid j ended.0 ≡ true) × (lex_less maximum j.work.target ≡ false))
    × (length ended.0.jobs ≤ 1024)
    × (length ended.0.pending ≤ 4096)
run-mineable_example =
    run-mineable (codes "pool") 3333 (codes "worker") 0 (opening ++ shares) started ended.0 ended.1
      started_ok ended_ok

abbrev waiting : Session
waiting = (ok_or (run (take 3 opening) started) (started, [])).0

abbrev switched_to : Session × List Event
switched_to = ok_or (handle (prev_hash first_block) waiting) (waiting, [])

switched_ok : handle (prev_hash first_block) waiting ≡ ok (switched_to.0, switched_to.1)
unfolding init start setup string integer le_bytes run step handle on_setup_success on_open_success
    on_new_job on_prev_hash on_target on_accepted on_rejected is_stale submit valid open_standard
    submit_standard words find_job activate store_job switch_block capped lex_less compact_target
    expand_compact unpack_mantissa unhex hex standard_work work_header blake2b256 overwrite store_le
    settle contains contains_key remove insert text_eq split_up_to count_up_to
switched_ok = refl

waiting-Keyed : (length waiting.jobs ≡ 1) × (waiting.epoch ≡ 0) × Keyed waiting.jobs
unfolding init start setup string integer le_bytes run step handle on_setup_success on_open_success
    on_new_job on_prev_hash on_target on_accepted on_rejected is_stale submit valid open_standard
    submit_standard words find_job activate store_job switch_block capped lex_less compact_target
    expand_compact unpack_mantissa unhex hex standard_work work_header blake2b256 overwrite store_le
    settle contains contains_key remove insert text_eq split_up_to count_up_to
waiting-Keyed = (refl, refl, (refl, tt))

prev_hash-expires_example :
    ((j : Job) → valid j waiting ≡ true → valid j switched_to.0 ≡ false)
    × ((st : Stored) × (switched_to.0.jobs ≡ (1, st) ∷ []))
    × ((j : Job) × (switched_to.0.current ≡ some j)
        × (valid j switched_to.0 ≡ true)
        × (j.time32 ≡ 100)
        × (j.epoch ≡ (waiting.epoch + 1) % 2 ^ 64))
prev_hash-expires_example =
    prev_hash-expires first_block waiting switched_to.0 switched_to.1 switched_ok
      (omega (arith, waiting-Keyed.1)) waiting-Keyed.2

abbrev next_job : NewJob
next_job = record { channel = 7; job = 2; ntime = some 101; version = 2; root = replicate 32 6 }

abbrev renewed : Session × List Event
renewed = ok_or (handle (new_job next_job) opened) (opened, [])

renewed_ok : handle (new_job next_job) opened ≡ ok (renewed.0, renewed.1)
unfolding init start setup string integer le_bytes run step handle on_setup_success on_open_success
    on_new_job on_prev_hash on_target on_accepted on_rejected is_stale submit valid open_standard
    submit_standard words find_job activate store_job switch_block capped lex_less compact_target
    expand_compact unpack_mantissa unhex hex standard_work work_header blake2b256 overwrite store_le
    settle contains contains_key remove insert text_eq split_up_to count_up_to
renewed_ok = refl

mined-valid : valid mined opened ≡ true
unfolding init start setup string integer le_bytes run step handle on_setup_success on_open_success
    on_new_job on_prev_hash on_target on_accepted on_rejected is_stale submit valid open_standard
    submit_standard words find_job activate store_job switch_block capped lex_less compact_target
    expand_compact unpack_mantissa unhex hex standard_work work_header blake2b256 overwrite store_le
    settle contains contains_key remove insert text_eq split_up_to count_up_to
mined-valid = refl

new_job-keeps_example : valid mined renewed.0 ≡ true
new_job-keeps_example =
    new_job-keeps next_job mined opened renewed.0 renewed.1 renewed_ok mined-valid

-- Of three pending shares the first two are accepted.
abbrev three_pending : Session
three_pending = record opened { pending = 10 ∷ 11 ∷ 12 ∷ []; last_sent = 12 }

abbrev two_accepted : Accepted
two_accepted = record { channel = 7; last_sequence = 11; count = 2; difficulty_sum = 2 }

abbrev replied : Session × List Event
replied = ok_or (handle (accepted two_accepted) three_pending) (three_pending, [])

replied_ok : handle (accepted two_accepted) three_pending ≡ ok (replied.0, replied.1)
unfolding init start setup string integer le_bytes run step handle on_setup_success on_open_success
    on_new_job on_prev_hash on_target on_accepted on_rejected is_stale submit valid open_standard
    submit_standard words find_job activate store_job switch_block capped lex_less compact_target
    expand_compact unpack_mantissa unhex hex standard_work work_header blake2b256 overwrite store_le
    settle contains contains_key remove insert text_eq split_up_to count_up_to
replied_ok = refl

replied_answers : (answered replied.1 ≡ 10 ∷ 11 ∷ []) × (replied.0.pending ≡ 12 ∷ [])
unfolding init start setup string integer le_bytes run step handle on_setup_success on_open_success
    on_new_job on_prev_hash on_target on_accepted on_rejected is_stale submit valid open_standard
    submit_standard words find_job activate store_job switch_block capped lex_less compact_target
    expand_compact unpack_mantissa unhex hex standard_work work_header blake2b256 overwrite store_le
    settle contains contains_key remove insert text_eq split_up_to count_up_to
replied_answers = (refl, refl)

handle-answered_example : Perm three_pending.pending (answered replied.1 ++ replied.0.pending)
handle-answered_example =
    handle-answered (accepted two_accepted) three_pending replied.0 replied.1 replied_ok
