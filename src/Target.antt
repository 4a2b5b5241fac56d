-- ===== src/Target.antt =====
-- src/crypto.cpp: `meets`. src/coin.cpp: `compact_target`. A hash and a target are 32 bytes, the most
-- significant first.
pub mod Value
pub mod Meets
pub mod Compact
pub mod Network
mod Runs
use supryolo.Base.{
  ℕ, zero, suc, ◌+◌, ◌-◌, ◌*◌, ◌/◌, ◌%◌, ◌^◌, List, [], ◌∷◌, Bool, true, false, not, ◌&&◌, ◌||◌,
  length, get_or, set, replicate, all, leb, ltb, ◌==◌, if◌then◌else◌, Result, ok, err, ◌>>=◌, ◌>>◌,
  require,
}
use supryolo.Hex.{unhex}

-- `std::lexicographical_compare`.
unfoldable pub lex_less : List ℕ → List ℕ → Bool
lex_less [] [] = false
lex_less [] (y ∷ ys) = true
lex_less (x ∷ xs) [] = false
lex_less (x ∷ xs) (y ∷ ys) = if ltb x y then true else if ltb y x then false else lex_less xs ys

unfoldable pub meets : List ℕ → List ℕ → Bool
unfolding lex_less
meets h t = not (lex_less t h)

-- The loop `for (i = 31; i >= 28; --i)`: `k` rounds, writing byte `i` down to `i - k + 1`.
store_down : ℕ → ℕ → ℕ → List ℕ → List ℕ
store_down zero i mantissa out = out
store_down (suc k) i mantissa out =
    store_down k (i - 1) (mantissa / 256) (set out i (mantissa % 256))

-- The body of the loop over `i` for an exponent above 3; `32 - exponent + i` may be negative.
place_byte : ℕ → ℕ → ℕ → List ℕ → Result (List ℕ)
place_byte i exponent mantissa out =
    let byte = mantissa / 2 ^ (16 - i * 8) % 256 in
    if ltb (32 + i) exponent
    then (if byte == 0 then ok out else err "compact target overflow")
    else if ltb (32 + i - exponent) 32
    then ok (set out (32 + i - exponent) byte)
    else ok out

place_bytes : ℕ → ℕ → List ℕ → Result (List ℕ)
unfolding place_byte
place_bytes exponent mantissa out = do
  out0 ← place_byte 0 exponent mantissa out
  out1 ← place_byte 1 exponent mantissa out0
  place_byte 2 exponent mantissa out1

-- `Hash out{}`.
abbrev pub zero_hash : List ℕ
zero_hash = replicate 32 0

-- The two loops.
unfoldable pub unpack_mantissa : ℕ → ℕ → Result (List ℕ)
unfolding store_down place_bytes
unpack_mantissa exponent mantissa =
    if leb exponent 3
    then ok (store_down 4 31 (mantissa / 2 ^ (8 * (3 - exponent))) zero_hash)
    else place_bytes exponent mantissa zero_hash

unfoldable pub expand_compact : ℕ → ℕ → Result (List ℕ)
expand_compact exponent mantissa = do
  require (not (mantissa / 0x800000 % 2 == 1 || mantissa == 0 || ltb 34 exponent))
      "invalid compact target"
  out ← unpack_mantissa exponent mantissa
  require (not (all (λ b. b == 0) out)) "zero compact target"
  ok out

unfoldable pub compact_target : List ℕ → Result (List ℕ)
compact_target nbits = do
  bytes ← unhex nbits
  require (length bytes == 4) "invalid nbits"
  expand_compact (get_or bytes 0 0)
      (get_or bytes 1 0 * 65536 + get_or bytes 2 0 * 256 + get_or bytes 3 0)
