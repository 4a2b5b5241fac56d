-- ===== src/Words/Runs.antt =====
-- The theorems at concrete inputs.
use supryolo.Base.{◌≡◌, arith, [], ◌∷◌, ◌++◌}
use supryolo.Words.{load_le, store_le}
use supryolo.Words.RoundTrip.{load_le-store_le}

load_le-store_le_example :
    load_le (store_le 0x0102_0304_0506_0708 ++ (9 ∷ [])) ≡ 0x0102_0304_0506_0708
load_le-store_le_example = load_le-store_le 0x0102_0304_0506_0708 (9 ∷ []) (omega arith)
