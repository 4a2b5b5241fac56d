-- ===== src/Hex/Runs.antt =====
-- Concrete runs, and the theorems at concrete inputs.
use supryolo.Base.{ℕ, ◌≡◌, refl, arith, [], ◌∷◌, ok, err, All, ◌*◌, length, map}
use supryolo.Base.Bytes.{codes, IsByte}
use supryolo.Hex.{unhex, hex}
use supryolo.Hex.RoundTrip.{unhex-hex, hex-unhex, to_lower}

hex_bytes : hex (0 ∷ 171 ∷ 255 ∷ []) ≡ codes "00abff"
unfolding hex
hex_bytes = refl

unhex_upper : unhex (codes "00aBFf") ≡ ok (0 ∷ 171 ∷ 255 ∷ [])
unfolding unhex
unhex_upper = refl

unhex_odd : unhex (codes "xyz") ≡ err "odd hex length"
unfolding unhex
unhex_odd = refl

unhex-hex_example : unhex (hex (0 ∷ 171 ∷ 255 ∷ [])) ≡ ok (0 ∷ 171 ∷ 255 ∷ [])
unhex-hex_example = unhex-hex (0 ∷ 171 ∷ 255 ∷ []) (omega arith)

hex-unhex_example :
    (hex (0 ∷ 171 ∷ 255 ∷ []) ≡ map to_lower (codes "00aBFf"))
    × (length (codes "00aBFf") ≡ 2 * length {A = ℕ} (0 ∷ 171 ∷ 255 ∷ []))
    × All IsByte (0 ∷ 171 ∷ 255 ∷ [])
hex-unhex_example = hex-unhex (codes "00aBFf") (0 ∷ 171 ∷ 255 ∷ []) unhex_upper
