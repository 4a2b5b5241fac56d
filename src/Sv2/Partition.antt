-- ===== src/Sv2/Partition.antt =====
-- src/sv2.cpp: `partition`, which maps a slot and a cursor to a nonce and a time.
pub mod Laws
mod Runs
use supryolo.Base.{
  ℕ, ◌+◌, ◌-◌, ◌*◌, ◌/◌, ◌%◌, ◌^◌, min, ◌||◌, leb, ◌==◌, if◌then◌else◌, Result, ok, err,
}

pub record Partition : Type 0 where
  pub nonce : ℕ
  pub ntime : ℕ
  pub count : ℕ

-- `nonce`, the uint32_t cast of the cursor.
abbrev pub low_word : ℕ → ℕ
low_word cursor = cursor % 2 ^ 32

-- The sum of uint32_t values, which wraps.
abbrev pub rolled_time : ℕ → ℕ → ℕ → ℕ
rolled_time base slot cursor =
    ((base + slot * 2 ^ 24 % 2 ^ 32) % 2 ^ 32 + cursor / 2 ^ 32 % 2 ^ 32) % 2 ^ 32

unfoldable pub partition : ℕ → ℕ → ℕ → ℕ → Result Partition
partition base slot cursor batch =
    if leb 256 slot || leb (2 ^ 56) cursor || batch == 0
    then err "SV2 nonce partition exhausted or invalid"
    else ok (record {
      nonce = low_word cursor;
      ntime = rolled_time base slot cursor;
      count = min batch (2 ^ 32 - low_word cursor) % 2 ^ 32;
    })
