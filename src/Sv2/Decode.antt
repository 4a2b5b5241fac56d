-- ===== src/Sv2/Decode.antt =====
-- src/sv2.cpp: `decode`. The text of the error for an unknown type leaves out the number.
pub mod Format
pub mod Sound
pub mod Complete
mod Runs
use supryolo.Base.{
  ℕ, Option, none, some, Bool, true, false, not, ◌&&◌, ◌||◌, leb, ltb, ◌==◌, if◌then◌else◌, Result,
  ok, err,
}
use supryolo.Sv2.Types.{
  Frame, Message, setup_success, open_success, new_job, prev_hash, target, accepted, rejected,
  error,
}
use supryolo.Sv2.Reader.{
  Reader, ◌>>=◌, ◌>>◌, pure, check, integer, u32, hash, target_hash, short_bytes, string, finish,
}

pub read_setup_success : Reader Message
read_setup_success = do
  version ← integer 2
  flags ← u32
  pure (setup_success (record { version = version; flags = flags }))

pub read_open_success : Reader Message
read_open_success = do
  request ← u32
  c ← u32
  t ← target_hash
  p ← short_bytes 32
  g ← u32
  pure (open_success (record { request = request; channel = c; target = t; prefix = p; group = g }))

some_ntime : Reader (Option ℕ)
some_ntime = do t ← u32; pure (some t)

-- The optional time of a job: a flag that is 0 or 1, then the time if it is 1.
pub read_ntime : Reader (Option ℕ)
unfolding some_ntime
read_ntime = do
  present ← integer 1
  check (not (ltb 1 present)) "invalid SV2 optional ntime"
  if present == 0 then pure none else some_ntime

pub read_new_job : Reader Message
read_new_job = do
  c ← u32
  j ← u32
  t ← read_ntime
  v ← u32
  h ← hash
  pure (new_job (record { channel = c; job = j; ntime = t; version = v; root = h }))

pub read_prev_hash : Reader Message
read_prev_hash = do
  c ← u32
  j ← u32
  h ← hash
  t ← u32
  n ← u32
  pure (prev_hash (record { channel = c; job = j; hash = h; ntime = t; nbits = n }))

pub read_target : Reader Message
read_target = do c ← u32; t ← target_hash; pure (target (record { channel = c; target = t }))

pub read_accepted : Reader Message
read_accepted = do
  c ← u32
  s ← u32
  n ← u32
  d ← integer 8
  pure (accepted (record { channel = c; last_sequence = s; count = n; difficulty_sum = d }))

pub read_rejected : Reader Message
read_rejected = do
  c ← u32
  s ← u32
  r ← string
  pure (rejected (record { channel = c; sequence = s; reason = r }))

pub read_error : ℕ → Reader Message
read_error type = do
  ref ← u32
  r ← string
  pure (error (record { type = type; reference = ref; reason = r }))

unsupported : Reader Message
unsupported b = err "unsupported SV2 message type"

-- The switch.
pub read_value : ℕ → Reader Message
unfolding unsupported
read_value type =
    if type == 1
    then read_setup_success
    else if type == 0x11
    then read_open_success
    else if type == 0x15
    then read_new_job
    else if type == 0x20
    then read_prev_hash
    else if type == 0x21
    then read_target
    else if type == 0x1c
    then read_accepted
    else if type == 0x1d
    then read_rejected
    else if type == 2 || type == 0x12 || type == 0x18
    then read_error type
    else unsupported

-- The extension field that a message type must have.
abbrev pub expected_extension : ℕ → ℕ
expected_extension type = if leb 0x15 type && leb type 0x24 then 0x8000 else 0

unfoldable pub decode : Frame → Result Message
decode f =
    if f.extension == expected_extension f.type
    then finish (read_value f.type f.payload)
    else err "unsupported SV2 extension or channel bit"
