-- ===== src/Sv2/Encode.antt =====
-- src/sv2.cpp: the struct `Writer` and the messages that the miner sends. A float is its IEEE 754 bit
-- pattern, below 2 ^ 32.
pub mod Laws
mod Runs
use mathlib.Core.List.{reverse}
use supryolo.Base.{
  ℕ, ◌/◌, ◌%◌, ◌^◌, List, [], ◌∷◌, ◌++◌, Bool, not, ◌&&◌, ◌||◌, length, ltb, ◌==◌, if◌then◌else◌,
  Result, ok, err, ◌>>=◌,
}
use supryolo.Base.Bytes.{codes}
use supryolo.Words.{le_bytes}
use supryolo.Sv2.Types.{Frame}

-- `Writer::integer` and `Writer::string`, on the bytes written so far.
unfoldable pub integer : ℕ → ℕ → List ℕ → List ℕ
integer v n b = b ++ le_bytes n v

unfoldable pub string : List ℕ → List ℕ → Result (List ℕ)
unfolding integer
string s b =
    if ltb 255 (length s)
    then err "SV2 string exceeds 255 bytes"
    else ok (integer (length s) 1 b ++ s)

unfoldable pub setup : List ℕ → ℕ → List ℕ → Result Frame
setup host port agent = do
  w ← string host (integer 1 4 (integer 2 2 (integer 2 2 (integer 0 1 []))))
  w ← string (codes "ocminer") (integer port 2 w)
  w ← string (codes "supryolo") w
  w ← string agent w
  w ← string (codes "") w
  ok (record { extension = 0; type = 0; payload = w })

-- `std::isfinite(rate)` and `rate < 0`; minus zero is not below zero.
abbrev pub is_finite : ℕ → Bool
is_finite rate = not (rate / 2 ^ 23 % 256 == 255)

abbrev pub is_negative : ℕ → Bool
is_negative rate = ltb (2 ^ 31) rate

unfoldable pub open_standard : ℕ → List ℕ → ℕ → List ℕ → Result Frame
open_standard request user rate max_target =
    if not (is_finite rate) || is_negative rate then err "invalid SV2 nominal hashrate" else (do
      w ← string user (integer request 4 [])
      ok (record { extension = 0; type = 0x10; payload = integer rate 4 w ++ reverse max_target }))

-- The loop over the six values.
unfoldable pub words : List ℕ → List ℕ → List ℕ
words [] b = b
words (x ∷ xs) b = words xs (integer x 4 b)

unfoldable pub submit_standard : ℕ → ℕ → ℕ → ℕ → ℕ → ℕ → Frame
submit_standard c s j n t v = record {
  extension = 0x8000;
  type = 0x1a;
  payload = words (c ∷ s ∷ j ∷ n ∷ t ∷ v ∷ []) [];
}
