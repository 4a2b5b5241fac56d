-- ===== src/Sv2/Decode/Format.antt =====
-- The wire format of the pool's messages, written down independently of the decoder: the fields of
-- each message in order, numbers little endian, strings behind one byte of length.
use mathlib.Core.List.{reverse}
use supryolo.Base.{ℕ, ◌≡◌, ◌⊎◌, List, [], ◌∷◌, ◌++◌, Option, none, some, ◌==◌, if◌then◌else◌}
use supryolo.Base.Bytes.{IsU32}
use supryolo.Words.{le_bytes}
use supryolo.Sv2.Types.{
  Frame, Message, setup_success, open_success, new_job, prev_hash, target, accepted, rejected,
  error,
}
use supryolo.Sv2.Reader.Laws.{Sized, Below}
use supryolo.Sv2.Reader.Strings.{IsTarget, Within, with_length}

abbrev pub fields : List (List ℕ) → List ℕ
fields [] = []
fields (x ∷ xs) = x ++ fields xs

unfoldable pub ntime_field : Option ℕ → List ℕ
ntime_field none = le_bytes 1 0
ntime_field (some t) = le_bytes 1 1 ++ le_bytes 4 t

abbrev pub OptionalU32 : Option ℕ → Type 0
OptionalU32 none = Unit {0}
OptionalU32 (some t) = IsU32 t

unfoldable pub payload_of : Message → List ℕ
payload_of (setup_success m) = fields (le_bytes 2 m.version ∷ le_bytes 4 m.flags ∷ [])
payload_of (open_success m) = fields (
    le_bytes 4 m.request
    ∷ le_bytes 4 m.channel
    ∷ reverse m.target
    ∷ with_length m.prefix
    ∷ le_bytes 4 m.group
    ∷ [])
payload_of (new_job m) = fields (
    le_bytes 4 m.channel
    ∷ le_bytes 4 m.job
    ∷ ntime_field m.ntime
    ∷ le_bytes 4 m.version
    ∷ m.root
    ∷ [])
payload_of (prev_hash m) = fields (
    le_bytes 4 m.channel ∷ le_bytes 4 m.job ∷ m.hash ∷ le_bytes 4 m.ntime ∷ le_bytes 4 m.nbits ∷ [])
payload_of (target m) = fields (le_bytes 4 m.channel ∷ reverse m.target ∷ [])
payload_of (accepted m) = fields (
    le_bytes 4 m.channel
    ∷ le_bytes 4 m.last_sequence
    ∷ le_bytes 4 m.count
    ∷ le_bytes 8 m.difficulty_sum
    ∷ [])
payload_of (rejected m) =
    fields (le_bytes 4 m.channel ∷ le_bytes 4 m.sequence ∷ with_length m.reason ∷ [])
payload_of (error m) = fields (le_bytes 4 m.reference ∷ with_length m.reason ∷ [])

unfoldable pub type_of : Message → ℕ
type_of (setup_success m) = 1
type_of (open_success m) = 0x11
type_of (new_job m) = 0x15
type_of (prev_hash m) = 0x20
type_of (target m) = 0x21
type_of (accepted m) = 0x1c
type_of (rejected m) = 0x1d
type_of (error m) = m.type

-- Messages about a channel carry the channel bit in the extension field.
unfoldable pub extension_of : Message → ℕ
extension_of (new_job m) = 0x8000
extension_of (prev_hash m) = 0x8000
extension_of (target m) = 0x8000
extension_of (accepted m) = 0x8000
extension_of (rejected m) = 0x8000
extension_of (error m) = if m.type == 0x18 then 0x8000 else 0
extension_of (setup_success m) = 0
extension_of (open_success m) = 0

unfoldable pub frame_of : Message → Frame
unfolding payload_of type_of extension_of
frame_of m = record { extension = extension_of m; type = type_of m; payload = payload_of m }

-- The ranges of the fields.
unfoldable pub IsMessage : Message → Type 0
IsMessage (setup_success m) = Below 2 m.version × IsU32 m.flags
IsMessage (open_success m) =
    IsU32 m.request × IsU32 m.channel × IsTarget m.target × Within 32 m.prefix × IsU32 m.group
IsMessage (new_job m) =
    IsU32 m.channel × IsU32 m.job × OptionalU32 m.ntime × IsU32 m.version × Sized 32 m.root
IsMessage (prev_hash m) =
    IsU32 m.channel × IsU32 m.job × Sized 32 m.hash × IsU32 m.ntime × IsU32 m.nbits
IsMessage (target m) = IsU32 m.channel × IsTarget m.target
IsMessage (accepted m) =
    IsU32 m.channel × IsU32 m.last_sequence × IsU32 m.count × Below 8 m.difficulty_sum
IsMessage (rejected m) = IsU32 m.channel × IsU32 m.sequence × Within 255 m.reason
IsMessage (error m) =
    ((m.type ≡ 2) ⊎ (m.type ≡ 0x12) ⊎ (m.type ≡ 0x18)) × IsU32 m.reference × Within 255 m.reason
