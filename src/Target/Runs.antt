-- ===== src/Target/Runs.antt =====
-- Concrete targets, and the theorems at concrete inputs.
use supryolo.Base.{ℕ, ◌≡◌, refl, arith, List, [], ◌∷◌, ok, err, leb, set}
use supryolo.Base.Bytes.{codes}
use supryolo.Hex.{unhex}
use supryolo.Target.{compact_target, meets, expand_compact, unpack_mantissa, place_bytes, zero_hash}
use supryolo.Target.Value.{be_value}
use supryolo.Target.Compact.{compact_value}
use supryolo.Target.Meets.{meets-leb}
use supryolo.Target.Network.{
  IsCompact, IsHashOf, mantissa, compact_target-ok, compact_target_accepts,
}

-- Difficulty one.
abbrev difficulty_one : List ℕ
difficulty_one = set (set zero_hash 4 255) 5 255

compact_target_one : compact_target (codes "1d00ffff") ≡ ok difficulty_one
unfolding compact_target expand_compact unpack_mantissa place_bytes unhex
compact_target_one = refl

compact_target_overflow : compact_target (codes "22010000") ≡ err "compact target overflow"
unfolding compact_target expand_compact unpack_mantissa place_bytes unhex
compact_target_overflow = refl

unhex_one : unhex (codes "1d00ffff") ≡ ok (29 ∷ 0 ∷ 255 ∷ 255 ∷ [])
unfolding unhex
unhex_one = refl

one-IsCompact : IsCompact 29 (mantissa 0 255 255)
unfolding compact_value
one-IsCompact = omega arith

compact_target-ok_example :
    (e : ℕ) × (b1 : ℕ) × (b2 : ℕ) × (b3 : ℕ) × (unhex (codes "1d00ffff")
      ≡ ok (e ∷ b1 ∷ b2 ∷ b3 ∷ []))
    × IsCompact e (mantissa b1 b2 b3)
    × IsHashOf (compact_value e (mantissa b1 b2 b3)) difficulty_one
compact_target-ok_example = compact_target-ok (codes "1d00ffff") difficulty_one compact_target_one

compact_target_accepts_example :
    (t : List ℕ) × (compact_target (codes "1d00ffff") ≡ ok t)
    × IsHashOf (compact_value 29 (mantissa 0 255 255)) t
compact_target_accepts_example =
    compact_target_accepts (codes "1d00ffff") 29 0 255 255 unhex_one one-IsCompact

meets-leb_example :
    meets difficulty_one difficulty_one ≡ leb (be_value difficulty_one) (be_value difficulty_one)
meets-leb_example = meets-leb difficulty_one difficulty_one refl (omega arith) (omega arith)
