-- ===== src/Blake2b.antt =====
-- src/crypto.cpp: `blake2b256`, the scalar one-block BLAKE2b-256.
mod Runs
use Prim.Native.Nat.{bit_xor, bit_or}
use supryolo.Base.{
  ℕ, zero, suc, ◌+◌, ◌-◌, ◌*◌, ◌/◌, ◌%◌, ◌^◌, List, [], ◌∷◌, ◌++◌, length, get_or, set, take, drop,
  replicate, ltb, if◌then◌else◌, Result, ok, err,
}
use supryolo.Words.{load_le, store_le}

abbrev pub iv : List ℕ
iv =
    0x6a09e667f3bcc908 ∷ 0xbb67ae8584caa73b ∷ 0x3c6ef372fe94f82b ∷ 0xa54ff53a5f1d36f1
    ∷ 0x510e527fade682d1 ∷ 0x9b05688c2b3e6c1f ∷ 0x1f83d9abfb41bd6b ∷ 0x5be0cd19137e2179 ∷ []

abbrev pub sigma : List (List ℕ)
sigma =
    (0 ∷ 1 ∷ 2 ∷ 3 ∷ 4 ∷ 5 ∷ 6 ∷ 7 ∷ 8 ∷ 9 ∷ 10 ∷ 11 ∷ 12 ∷ 13 ∷ 14 ∷ 15 ∷ [])
    ∷ (14 ∷ 10 ∷ 4 ∷ 8 ∷ 9 ∷ 15 ∷ 13 ∷ 6 ∷ 1 ∷ 12 ∷ 0 ∷ 2 ∷ 11 ∷ 7 ∷ 5 ∷ 3 ∷ [])
    ∷ (11 ∷ 8 ∷ 12 ∷ 0 ∷ 5 ∷ 2 ∷ 15 ∷ 13 ∷ 10 ∷ 14 ∷ 3 ∷ 6 ∷ 7 ∷ 1 ∷ 9 ∷ 4 ∷ [])
    ∷ (7 ∷ 9 ∷ 3 ∷ 1 ∷ 13 ∷ 12 ∷ 11 ∷ 14 ∷ 2 ∷ 6 ∷ 5 ∷ 10 ∷ 4 ∷ 0 ∷ 15 ∷ 8 ∷ [])
    ∷ (9 ∷ 0 ∷ 5 ∷ 7 ∷ 2 ∷ 4 ∷ 10 ∷ 15 ∷ 14 ∷ 1 ∷ 11 ∷ 12 ∷ 6 ∷ 8 ∷ 3 ∷ 13 ∷ [])
    ∷ (2 ∷ 12 ∷ 6 ∷ 10 ∷ 0 ∷ 11 ∷ 8 ∷ 3 ∷ 4 ∷ 13 ∷ 7 ∷ 5 ∷ 15 ∷ 14 ∷ 1 ∷ 9 ∷ [])
    ∷ (12 ∷ 5 ∷ 1 ∷ 15 ∷ 14 ∷ 13 ∷ 4 ∷ 10 ∷ 0 ∷ 7 ∷ 6 ∷ 3 ∷ 9 ∷ 2 ∷ 8 ∷ 11 ∷ [])
    ∷ (13 ∷ 11 ∷ 7 ∷ 14 ∷ 12 ∷ 1 ∷ 3 ∷ 9 ∷ 5 ∷ 0 ∷ 15 ∷ 4 ∷ 8 ∷ 6 ∷ 2 ∷ 10 ∷ [])
    ∷ (6 ∷ 15 ∷ 14 ∷ 9 ∷ 11 ∷ 3 ∷ 0 ∷ 8 ∷ 12 ∷ 2 ∷ 13 ∷ 7 ∷ 1 ∷ 4 ∷ 10 ∷ 5 ∷ [])
    ∷ (10 ∷ 2 ∷ 8 ∷ 4 ∷ 7 ∷ 6 ∷ 1 ∷ 5 ∷ 15 ∷ 11 ∷ 9 ∷ 14 ∷ 3 ∷ 12 ∷ 13 ∷ 0 ∷ [])
    ∷ []

-- uint64_t addition, `~`, and `std::rotr`.
unfoldable pub add64 : ℕ → ℕ → ℕ
add64 a b = (a + b) % 2 ^ 64

unfoldable pub not64 : ℕ → ℕ
not64 a = 2 ^ 64 - 1 - a

unfoldable pub rotr64 : ℕ → ℕ → ℕ
rotr64 a k = bit_or (a / 2 ^ k) (a * 2 ^ (64 - k) % 2 ^ 64)

unfoldable pub at : List ℕ → ℕ → ℕ
at v i = get_or v i 0

-- The lambda `g`, statement by statement, on the array `v`.
unfoldable pub g : ℕ → ℕ → ℕ → ℕ → ℕ → ℕ → List ℕ → List ℕ
unfolding at add64 rotr64
g a b c d x y v0 =
    let v1 = set v0 a (add64 (at v0 a) (add64 (at v0 b) x)) in
    let v2 = set v1 d (rotr64 (bit_xor (at v1 d) (at v1 a)) 32) in
    let v3 = set v2 c (add64 (at v2 c) (at v2 d)) in
    let v4 = set v3 b (rotr64 (bit_xor (at v3 b) (at v3 c)) 24) in
    let v5 = set v4 a (add64 (at v4 a) (add64 (at v4 b) y)) in
    let v6 = set v5 d (rotr64 (bit_xor (at v5 d) (at v5 a)) 16) in
    let v7 = set v6 c (add64 (at v6 c) (at v6 d)) in
    set v7 b (rotr64 (bit_xor (at v7 b) (at v7 c)) 63)

-- The body of the loop over `r`, with `s = sigma[r % 10]`.
unfoldable pub round_with : List ℕ → List ℕ → List ℕ → List ℕ
unfolding g
round_with s m v0 =
    let v1 = g 0 4 8 12 (at m (at s 0)) (at m (at s 1)) v0 in
    let v2 = g 1 5 9 13 (at m (at s 2)) (at m (at s 3)) v1 in
    let v3 = g 2 6 10 14 (at m (at s 4)) (at m (at s 5)) v2 in
    let v4 = g 3 7 11 15 (at m (at s 6)) (at m (at s 7)) v3 in
    let v5 = g 0 5 10 15 (at m (at s 8)) (at m (at s 9)) v4 in
    let v6 = g 1 6 11 12 (at m (at s 10)) (at m (at s 11)) v5 in
    let v7 = g 2 7 8 13 (at m (at s 12)) (at m (at s 13)) v6 in
    g 3 4 9 14 (at m (at s 14)) (at m (at s 15)) v7

-- `k` rounds, from round `r` on.
unfoldable pub rounds : ℕ → ℕ → List ℕ → List ℕ → List ℕ
unfolding round_with
rounds zero r m v = v
rounds (suc k) r m v = rounds k (r + 1) m (round_with (get_or sigma (r % 10) []) m v)

-- `m[i] = load_le(block.data() + 8 * i)`, for `n` words.
unfoldable pub load_words : ℕ → List ℕ → List ℕ
unfolding load_le
load_words zero p = []
load_words (suc n) p = load_le p ∷ load_words n (drop 8 p)

-- `h` after the parameter word went in.
abbrev pub parameter_iv : List ℕ
parameter_iv = set iv 0 (bit_xor (at iv 0) 0x01010020)

-- `v` before the rounds, for a message of `size` bytes.
unfoldable pub initial_state : ℕ → List ℕ
unfolding at not64
initial_state size =
    let v = parameter_iv ++ iv in
    let v12 = set v 12 (bit_xor (at v 12) size) in set v12 14 (not64 (at v12 14))

-- The last loop: `store_le(out.data() + 8 * i, h[i] ^ v[i] ^ v[i + 8])`.
unfoldable pub digest_word : List ℕ → ℕ → ℕ
unfolding at
digest_word v i = bit_xor (bit_xor (at parameter_iv i) (at v i)) (at v (i + 8))

unfoldable pub digest : List ℕ → List ℕ
unfolding store_le digest_word
digest v =
    store_le (digest_word v 0)
    ++ (store_le (digest_word v 1) ++ (store_le (digest_word v 2) ++ store_le (digest_word v 3)))

unfoldable pub blake2b256 : List ℕ → Result (List ℕ)
blake2b256 b =
    if ltb 128 (length b)
    then err "reference BLAKE2b supports one block only"
    else (let block = b ++ replicate (128 - length b) 0 in
        let m = load_words 16 block in ok (digest (rounds 12 0 m (initial_state (length b)))))
