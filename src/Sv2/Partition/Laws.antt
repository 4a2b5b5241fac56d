-- ===== src/Sv2/Partition/Laws.antt =====
-- No two partitions share work, and a partition stays inside the words that it is given.
use supryolo.Base.{
  ℕ, ◌+◌, ◌-◌, ◌%◌, ◌^◌, ◌≤◌, ◌<◌, ◌≡◌, refl, ◌⊎◌, inl, inr, Bool-cases, true, false, ◌||◌, leb,
  ◌==◌, ◌*◌, ◌/◌, arith, ok, err, min,
}
use supryolo.Sv2.Partition.{Partition, partition, low_word, rolled_time}

-- A slot below 256 and a cursor below 2 ^ 56, with a batch that is not empty.
abbrev pub IsSlot : ℕ → ℕ → ℕ → Type 0
IsSlot slot cursor batch = (slot < 256) × (cursor < 2 ^ 56) × (0 < batch)

IsSlot-test :
    (slot cursor batch : ℕ)
    → (leb 256 slot || leb (2 ^ 56) cursor || batch == 0) ≡ false
    → IsSlot slot cursor batch
IsSlot-test slot cursor batch h = ground arith

test-IsSlot :
    (slot cursor batch : ℕ)
    → (leb 256 slot || leb (2 ^ 56) cursor || batch == 0) ≡ true
    → ¬ IsSlot slot cursor batch
test-IsSlot slot cursor batch h (slots, cursors, batches) = ground arith

-- For a 32-bit batch, `partition` accepts a slot below 256 with a cursor below 2 ^ 56 and a batch that is not
-- empty, and throws at everything else. What it accepts gets a partition of the nonce range of one time, both
-- fixed by the slot and the cursor: it starts at the cursor's low 32 bits, at the time that is 2 ^ 24 seconds
-- for each slot and one for each nonce range behind the base, with wrap-around. It is not empty, has at most
-- the whole batch, stays below 2 ^ 32, and is the lesser of the batch and what is left of the range.
pub partition_range :
    (base slot cursor batch : ℕ)
    → batch < 2 ^ 32
    → (IsSlot slot cursor batch
        × (p : Partition) × (partition base slot cursor batch ≡ ok p)
        × (p.nonce ≡ cursor % 2 ^ 32)
        × (p.ntime ≡ (base + slot * 2 ^ 24 + cursor / 2 ^ 32) % 2 ^ 32)
        × (0 < p.count)
        × (p.count ≤ batch)
        × (p.nonce + p.count ≤ 2 ^ 32)
        × (p.count ≡ min batch (2 ^ 32 - cursor % 2 ^ 32)))
      ⊎ ((¬ IsSlot slot cursor batch)
          × (partition base slot cursor batch ≡ err "SV2 nonce partition exhausted or invalid"))
unfolding partition
partition_range base slot cursor batch small =
    elim (Bool-cases (leb 256 slot || leb (2 ^ 56) cursor || batch == 0)) [
      | inl bad ↦ inr (test-IsSlot slot cursor batch bad, rw bad refl)
      | inr good ↦
          (let (slots, cursors, batches) = IsSlot-test slot cursor batch good in
            inl (
              (slots, cursors, batches),
              record {
                nonce = low_word cursor;
                ntime = rolled_time base slot cursor;
                count = min batch (2 ^ 32 - low_word cursor) % 2 ^ 32;
              },
              rw good refl,
              refl,
              omega arith,
              omega arith,
              omega arith,
              omega arith,
              omega arith,
            ))
    ]

-- The arithmetic of `partition_injective`.
words_injective :
    (base s s' c c' i j : ℕ)
    → s < 256
    → s' < 256
    → c < 2 ^ 56
    → c' < 2 ^ 56
    → low_word c + i < 2 ^ 32
    → low_word c' + j < 2 ^ 32
    → low_word c + i ≡ low_word c' + j
    → rolled_time base s c ≡ rolled_time base s' c'
    → (s ≡ s') × (c + i ≡ c' + j)
words_injective base s s' c c' i j hs hs' hc hc' hi hj n t = omega arith

-- What a partition that was handed out says of its arguments.
pub partition-ok :
    (base s c b : ℕ) (p : Partition)
    → partition base s c b ≡ ok p
    → (s < 256)
      × (c < 2 ^ 56)
      × (p.nonce ≡ low_word c)
      × (p.ntime ≡ rolled_time base s c)
      × (p.count ≡ min b (2 ^ 32 - low_word c) % 2 ^ 32)
unfolding partition
partition-ok base s c b p e = ground arith

count_fits : (b c n : ℕ) → n ≡ min b (2 ^ 32 - low_word c) % 2 ^ 32 → low_word c + n ≤ 2 ^ 32
count_fits b c n e = omega arith

-- Two hashes of one job that have the same nonce and the same time are the same hash of the same
-- slot. The hash with offset `i` of a partition has nonce `p.nonce + i` and stands at `cursor + i`.
pub partition_injective :
    (base s s' c c' b b' i j : ℕ) (p p' : Partition)
    → partition base s c b ≡ ok p
    → partition base s' c' b' ≡ ok p'
    → i < p.count
    → j < p'.count
    → p.nonce + i ≡ p'.nonce + j
    → p.ntime ≡ p'.ntime
    → (s ≡ s') × (c + i ≡ c' + j)
partition_injective base s s' c c' b b' i j p p' e e' hi hj n t =
    let (hs, hc, nonce, time, count) = partition-ok base s c b p e in
    let (hs', hc', nonce', time', count') = partition-ok base s' c' b' p' e' in
    words_injective base s s' c c' i j hs hs' hc hc' (omega (arith, count_fits b c p.count count))
      (omega (arith, count_fits b' c' p'.count count')) (omega arith) (omega arith)
