-- ===== src/Sv2/Reader.antt =====
-- src/sv2.cpp: the struct `Reader`. Its state is what is left of the span `b`.
pub mod Laws
pub mod Strings
use mathlib.Core.List.{reverse}
use supryolo.Base.{
  ℕ, List, [], ◌∷◌, Bool, true, false, not, length, take, drop, all, ltb, ◌==◌, if◌then◌else◌,
  Result, ok, err, String,
}
use supryolo.Words.{le_value}

abbrev pub Reader : Type 0 → Type 0
Reader A = List ℕ → Result (A × List ℕ)

abbrev pub and_then : {A B : Type 0} → Result (A × List ℕ) → (A → Reader B) → Result (B × List ℕ)
and_then (ok (a, rest)) k = k a rest
and_then (err why) k = err why

infixl 5 ◌>>=◌ ◌>>◌
abbrev pub ◌>>=◌ : {A B : Type 0} → Reader A → (A → Reader B) → Reader B
◌>>=◌ r k b = and_then (r b) k

abbrev pub pure : {A : Type 0} → A → Reader A
pure a b = ok (a, b)

abbrev pub check : Bool → String → Reader (Unit {0})
check true why b = ok (tt, b)
check false why b = err why

abbrev pub ◌>>◌ : {B : Type 0} → Reader (Unit {0}) → Reader B → Reader B
m >> k = m >>= λ _. k

-- On bytes, or-ing `b[i] << 8 * i` into `v` adds up to the little-endian number.
unfoldable pub integer : ℕ → Reader ℕ
integer n b =
    if ltb (length b) n then err "truncated SV2 message" else ok (le_value (take n b), drop n b)

unfoldable pub u32 : Reader ℕ
unfolding integer
u32 = integer 4

unfoldable pub bytes : ℕ → Reader (List ℕ)
bytes n b = if ltb (length b) n then err "truncated SV2 bytes" else ok (take n b, drop n b)

-- `hash(false)` and `hash(true)`.
unfoldable pub hash : Reader (List ℕ)
unfolding bytes
hash = bytes 32

unfoldable pub target_hash : Reader (List ℕ)
unfolding bytes
target_hash = do
  v ← bytes 32
  check (not (all (λ x. x == 0) (reverse v))) "zero SV2 target"
  pure (reverse v)

unfoldable pub short_bytes : ℕ → Reader (List ℕ)
unfolding integer bytes
short_bytes max = do
  n ← integer 1
  check (not (ltb max n)) "invalid SV2 byte string length"
  bytes n

unfoldable pub string : Reader (List ℕ)
unfolding short_bytes
string = short_bytes 255

-- `end()`, for a reader that has run on the whole payload.
abbrev pub finish : {A : Type 0} → Result (A × List ℕ) → Result A
finish (ok (a, [])) = ok a
finish (ok (a, x ∷ b)) = err "unexpected trailing SV2 bytes"
finish (err why) = err why
