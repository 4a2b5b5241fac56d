-- ===== src/Sv2/Session.antt =====
-- include/yolo/sv2_session.hpp and src/sv2_session.cpp: the state of one channel. `std::map`s are
-- association lists; `pending`, whose values are never read, is the ascending list of its keys. Frames
-- given to `send` collect in `sent`, oldest first; Sv2.Connection encrypts them. An exception ends the
-- connection, so an error carries no state.
pub mod Settle
pub mod Inversion
pub mod Answers
pub mod Order
pub mod Safety
pub mod Mineable
pub mod Expiry
mod Runs
use supryolo.Base.{
  ℕ, zero, suc, ◌+◌, ◌-◌, ◌/◌, ◌%◌, ◌^◌, List, [], ◌∷◌, ◌++◌, Bool, true, false, not, ◌&&◌, ◌||◌,
  Option, none, some, length, take, all, replicate, leb, ltb, ◌==◌, if◌then◌else◌, Result, ok, err,
  ◌>>=◌, ◌>>◌, require,
}
use supryolo.Base.Bytes.{codes}
use supryolo.Hex.{hex}
use supryolo.Target.{lex_less, compact_target, zero_hash}
use supryolo.Work.{Work, standard_work}
use supryolo.Job.{Job, empty_job, to_string}
use supryolo.Sv2.Types.{
  Frame, SetupSuccess, OpenSuccess, NewJob, PrevHash, Target, Accepted, Rejected, Error, Message,
  setup_success, open_success, new_job, prev_hash, target, accepted, rejected, error,
}
use supryolo.Sv2.Encode.{setup, open_standard, submit_standard}
use Settle.{
  Batch, Event, answer_accepted, answer_rejected, retarget, prompt, settle, remove, contains_key,
}

pub record Stored : Type 0 where
  pub wire : NewJob
  pub job : Job
  pub future : Bool

pub record Session : Type 0 where
  pub extra : List ℕ
  pub host : List ℕ
  pub user : List ℕ
  pub port : ℕ
  pub rate : ℕ
  pub phase : ℕ
  pub channel : ℕ
  pub group : ℕ
  pub generation : ℕ
  pub epoch : ℕ
  pub last_ack : ℕ
  pub last_sent : ℕ
  pub target : List ℕ
  pub network_target : List ℕ
  pub previous : List ℕ
  pub have_previous : Bool
  pub jobs : List (ℕ × Stored)
  pub pending : List ℕ
  pub batches : List Batch
  pub current : Option Job
  pub sent : List Frame

-- The members as the constructor leaves them.
unfoldable pub init : List ℕ → ℕ → List ℕ → ℕ → Session
init host port user rate = record {
  extra = [];
  host = host;
  user = user;
  port = port;
  rate = rate;
  phase = 0;
  channel = 0;
  group = 0;
  generation = 0;
  epoch = 0;
  last_ack = 0;
  last_sent = 0;
  target = zero_hash;
  network_target = zero_hash;
  previous = zero_hash;
  have_previous = false;
  jobs = [];
  pending = [];
  batches = [];
  current = none;
  sent = [];
}

unfoldable pub find_job : ℕ → List (ℕ × Stored) → Option Stored
find_job k [] = none
find_job k ((j, s) ∷ m) = if j == k then some s else find_job k m

abbrev pub send : Frame → Session → Session
send f s = record s { sent = s.sent ++ (f ∷ []) }

-- The 28 low bytes set: the easiest target with the top 32 bits zero.
abbrev pub maximum : List ℕ
maximum = replicate 4 0 ++ replicate 28 255

-- `std::min(j.work.target, maximum)`.
unfoldable pub capped : List ℕ → List ℕ
capped t = if lex_less maximum t then maximum else t

-- The job that `activate` makes of a stored one, with the header that was computed.
abbrev pub activated : Session → Stored → ℕ → List ℕ → Job
activated s stored time header = record stored.job {
  id = to_string stored.wire.job;
  generation = (s.generation + 1) % 2 ^ 64;
  epoch = s.epoch;
  sv2 = true;
  channel = s.channel;
  wire_job = stored.wire.job;
  version = stored.wire.version;
  time32 = time;
  work = record { header = header; target = capped s.target };
  network_target = s.network_target;
}

-- `activate`, with the reference to the map's entry as the key `k` in front of the other jobs.
unfoldable pub activate : ℕ → Stored → ℕ → List (ℕ × Stored) → Session → Result Session
activate k stored time others s = do
  require s.have_previous "SV2 active job before previous hash"
  header ← standard_work s.previous stored.wire.root s.extra time
  let j = activated s stored time header
  ok (record s {
    generation = (s.generation + 1) % 2 ^ 64;
    current = some j;
    jobs = (k, record stored { job = j; future = false }) ∷ others;
  })

-- After the Noise handshake.
unfoldable pub start : Session → Result Session
start s = do f ← setup s.host s.port (codes "supryolo/0.2.1"); ok (record (send f s) { phase = 1 })

unfoldable pub on_setup_success : SetupSuccess → Session → Result (Session × List Event)
on_setup_success m s = do
  require (s.phase == 1 && m.version == 2 && ltb m.flags 2) "unsupported SV2 setup response"
  f ← open_standard 1 s.user s.rate (replicate 32 255)
  ok (record (send f s) { phase = 2 }, prompt ∷ [])

unfoldable pub on_open_success : OpenSuccess → Session → Result (Session × List Event)
on_open_success m s = do
  require (s.phase == 2 && m.request == 1) "unexpected SV2 channel response"
  require (length m.prefix == 4 || length m.prefix == 12) "unsupported BTCB2 standard extranonce"
  ok (
    record s {
      channel = m.channel;
      group = m.group;
      target = m.target;
      extra = m.prefix ++ replicate (12 - length m.prefix) 0;
      phase = 3;
    },
    prompt ∷ [],
  )

unfoldable pub store_job : NewJob → Option ℕ → Session → Result Session
store_job m none s =
    ok (record s { jobs = (m.job, record { wire = m; job = empty_job; future = true }) ∷ s.jobs })
store_job m (some t) s =
    activate m.job (record { wire = m; job = empty_job; future = false }) t s.jobs s

unfoldable pub on_new_job : NewJob → Session → Result (Session × List Event)
on_new_job m s = do
  require (s.phase == 3 && m.channel == s.channel) "SV2 job channel mismatch"
  require (ltb (length s.jobs) 1024 && not (contains_key m.job s.jobs))
      "SV2 job limit or reused active job ID"
  s' ← store_job m m.ntime s
  ok (s', prompt ∷ [])

-- The four bytes of `nbits`, the most significant first.
abbrev pub compact : ℕ → List ℕ
compact n = (n / 2 ^ 24 % 256) ∷ (n / 2 ^ 16 % 256) ∷ (n / 2 ^ 8 % 256) ∷ (n % 256) ∷ []

abbrev pub for_channel : ℕ → Session → Bool
for_channel c s = s.phase == 3 && (c == s.channel || c == s.group)

unfoldable pub switch_block : PrevHash → Option Stored → Session → Result Session
switch_block m none s = err "SV2 activation of unknown job"
switch_block m (some selected) s = do
  require (all (λ b. b == 0) (take 6 m.hash)) "pool sent non-hidden BTCB2 prevhash"
  next ← compact_target (hex (compact m.nbits))
  activate m.job selected m.ntime [] (record s {
    epoch = (s.epoch + 1) % 2 ^ 64;
    previous = m.hash;
    network_target = next;
    have_previous = true;
  })

unfoldable pub on_prev_hash : PrevHash → Session → Result (Session × List Event)
on_prev_hash m s = do
  require (for_channel m.channel s) "SV2 previous hash channel mismatch"
  s' ← switch_block m (find_job m.job s.jobs) s
  ok (s', prompt ∷ [])

unfoldable pub on_target : Target → Session → Result (Session × List Event)
on_target m s = do
  require (for_channel m.channel s) "SV2 target channel mismatch"
  ok (record s { target = m.target }, retarget m.target ∷ prompt ∷ [])

abbrev pub accepts : Accepted → Session → Bool
accepts m s =
    s.phase == 3
    && m.channel == s.channel
    && ltb 0 m.count
    && leb m.count 4096
    && ltb s.last_ack m.last_sequence
    && leb m.last_sequence s.last_sent
    && Settle.contains m.last_sequence s.pending

unfoldable pub on_accepted : Accepted → Session → Result (Session × List Event)
on_accepted m s = do
  require (accepts m s) "invalid SV2 batch acknowledgement"
  (batches, pending, out) ←
      settle (s.batches ++ (record { last = m.last_sequence; count = m.count } ∷ [])) s.pending
  ok (
    record s { last_ack = m.last_sequence; batches = batches; pending = pending },
    out ++ (prompt ∷ []),
  )

-- The reasons that count as stale, code 21; all other rejections have code 20.
unfoldable pub is_stale : List ℕ → Bool
is_stale reason =
    Settle.text_eq reason (codes "stale-share")
    || Settle.text_eq reason (codes "invalid-job-id")
    || Settle.text_eq reason (codes "stale-job")

unfoldable pub on_rejected : Rejected → Session → Result (Session × List Event)
on_rejected m s = do
  require (s.phase == 3 && m.channel == s.channel && Settle.contains m.sequence s.pending)
      "unknown SV2 rejected sequence"
  (batches, pending, out) ← settle s.batches (remove m.sequence s.pending)
  ok (
    record s { batches = batches; pending = pending },
    answer_rejected m.sequence (if is_stale m.reason then 21 else 20) m.reason
        ∷ (out ++ (prompt ∷ [])),
  )

-- The body of the loop over frames, after `decode`. The text of a pool's error leaves out its reason.
unfoldable pub handle : Message → Session → Result (Session × List Event)
handle (setup_success m) s = on_setup_success m s
handle (open_success m) s = on_open_success m s
handle (new_job m) s = on_new_job m s
handle (prev_hash m) s = on_prev_hash m s
handle (target m) s = on_target m s
handle (accepted m) s = on_accepted m s
handle (rejected m) s = on_rejected m s
handle (error m) s = err "SV2 pool error"

valid_entry : Job → Option Stored → Bool
valid_entry j none = false
valid_entry j (some stored) = not stored.future && stored.job.generation == j.generation

unfoldable pub valid : Job → Session → Bool
unfolding valid_entry
valid j s =
    s.phase == 3
    && j.channel == s.channel
    && j.epoch == s.epoch
    && valid_entry j (find_job j.wire_job s.jobs)

unfoldable pub submit : Job → ℕ → ℕ → Session → Result Session
submit j nonce sequence s = do
  require
      (valid j s
        && leb nonce 0xffff_ffff
        && ltb s.last_sent sequence
        && ltb (length s.pending) 4096)
      "invalid SV2 submit or sequence exhausted"
  ok (
      send (submit_standard s.channel sequence j.wire_job nonce j.time32 j.version)
        (record s { pending = Settle.insert sequence s.pending; last_sent = sequence }))
