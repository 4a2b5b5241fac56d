-- ===== src/Hex.antt =====
-- src/crypto.cpp: `unhex` and `hex`. A text is the list of its bytes.
pub mod RoundTrip
mod Runs
use supryolo.Base.{
  ℕ, ◌+◌, ◌-◌, ◌*◌, ◌/◌, ◌%◌, List, [], ◌∷◌, ◌&&◌, leb, ◌==◌, if◌then◌else◌, length,
}
use supryolo.Base.{Result, ok, err, ◌>>=◌, get_or}
use supryolo.Base.Bytes.{codes}

-- The lambda `nib`.
nib : ℕ → Result ℕ
nib c =
    if leb b'0' c && leb c b'9'
    then ok (c - b'0')
    else if leb b'a' c && leb c b'f'
    then ok (c - b'a' + 10)
    else if leb b'A' c && leb c b'F'
    then ok (c - b'A' + 10)
    else err "invalid hex"

-- The loop over pairs of characters; `(hi << 4) | lo` with both below 16 is `hi * 16 + lo`.
unhex_pairs : List ℕ → Result (List ℕ)
unfolding nib
unhex_pairs [] = ok []
unhex_pairs (c ∷ []) = ok []
unhex_pairs (c ∷ d ∷ s) = do
  hi ← nib c
  lo ← nib d
  rest ← unhex_pairs s
  ok ((hi * 16 + lo) ∷ rest)

unfoldable pub unhex : List ℕ → Result (List ℕ)
unfolding unhex_pairs
unhex s = if length s % 2 == 0 then unhex_pairs s else err "odd hex length"

-- The constant `d`.
abbrev pub hex_digits : List ℕ
hex_digits = codes "0123456789abcdef"

unfoldable pub hex : List ℕ → List ℕ
hex [] = []
hex (v ∷ b) = get_or hex_digits (v / 16) 0 ∷ get_or hex_digits (v % 16) 0 ∷ hex b
