-- ===== src/Blake2b/Runs.antt =====
-- Digests of known messages.
use supryolo.Base.{◌≡◌, refl, [], ◌∷◌, ok}
use supryolo.Base.Bytes.{codes}
use supryolo.Blake2b.{blake2b256, load_words, initial_state, rounds, digest}

-- The digest of "abc".
blake2b256_abc :
    blake2b256 (codes "abc")
    ≡ ok (
        189 ∷ 221 ∷ 129 ∷ 60 ∷ 99 ∷ 66 ∷ 57 ∷ 114 ∷ 49 ∷ 113 ∷ 239 ∷ 63 ∷ 238 ∷ 152 ∷ 87 ∷ 155 ∷ 148
        ∷ 150 ∷ 78 ∷ 59 ∷ 177 ∷ 203 ∷ 62 ∷ 66 ∷ 114 ∷ 98 ∷ 200 ∷ 192 ∷ 104 ∷ 213 ∷ 35 ∷ 25 ∷ [])
unfolding blake2b256 load_words initial_state rounds digest
blake2b256_abc = refl
