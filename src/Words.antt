-- ===== src/Words.antt =====
-- src/crypto.cpp: `load_le` and `store_le`, little-endian 64-bit words.
pub mod RoundTrip
mod Runs
use supryolo.Base.{ℕ, zero, suc, ◌+◌, ◌*◌, ◌/◌, ◌%◌, List, [], ◌∷◌, ◌++◌, length, take, drop}

-- `n` rounds of the loop `p[i] = x; x >>= 8`.
unfoldable pub le_bytes : ℕ → ℕ → List ℕ
le_bytes zero x = []
le_bytes (suc n) x = (x % 256) ∷ le_bytes n (x / 256)

-- The loop `x = (x << 8) | p[i]`, from the last byte down; on bytes `|` adds.
unfoldable pub le_value : List ℕ → ℕ
le_value [] = 0
le_value (b ∷ p) = le_value p * 256 + b

-- The eight bytes that are written; where they go is said at each call, by `overwrite`.
unfoldable pub store_le : ℕ → List ℕ
unfolding le_bytes
store_le x = le_bytes 8 x

-- The eight bytes that `p` begins with.
unfoldable pub load_le : List ℕ → ℕ
unfolding le_value
load_le p = le_value (take 8 p)

-- `std::copy(b.begin(), b.end(), h.begin() + at)`, or a store at `h.data() + at`.
unfoldable pub overwrite : List ℕ → ℕ → List ℕ → List ℕ
overwrite h at b = take at h ++ (b ++ drop (at + length b) h)
