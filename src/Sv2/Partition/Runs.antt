-- ===== src/Sv2/Partition/Runs.antt =====
-- The theorems at concrete inputs.
use supryolo.Base.{ℕ, ◌-◌, min, ◌+◌, ◌%◌, ◌^◌, ◌≤◌, ◌<◌, ◌≡◌, refl, ◌⊎◌, ◌*◌, ◌/◌, arith, ok, err}
use supryolo.Sv2.Partition.{Partition, partition}
use supryolo.Sv2.Partition.Laws.{IsSlot, partition_range, partition_injective}

-- The end of a nonce range: 16 hashes are left of a batch of 100.
partition_range_example :
    (IsSlot 3 0xffff_fff0 100
      × (p : Partition) × (partition 1000 3 0xffff_fff0 100 ≡ ok p)
      × (p.nonce ≡ 0xffff_fff0 % 2 ^ 32)
      × (p.ntime ≡ (1000 + 3 * 2 ^ 24 + 0xffff_fff0 / 2 ^ 32) % 2 ^ 32)
      × (0 < p.count)
      × (p.count ≤ 100)
      × (p.nonce + p.count ≤ 2 ^ 32)
      × (p.count ≡ min 100 (2 ^ 32 - 0xffff_fff0 % 2 ^ 32)))
    ⊎ ((¬ IsSlot 3 0xffff_fff0 100)
        × (partition 1000 3 0xffff_fff0 100 ≡ err "SV2 nonce partition exhausted or invalid"))
partition_range_example = partition_range 1000 3 0xffff_fff0 100 (omega arith)

abbrev last_part : Partition
last_part = record { nonce = 0xffff_fff0; ntime = 1000; count = 16 }

last_part_ok : partition 1000 0 0xffff_fff0 100 ≡ ok last_part
unfolding partition
last_part_ok = refl

abbrev overlapping : Partition
overlapping = record { nonce = 0xffff_fff8; ntime = 1000; count = 8 }

overlapping_ok : partition 1000 0 0xffff_fff8 100 ≡ ok overlapping
unfolding partition
overlapping_ok = refl

partition_injective_example : (◌≡◌ {A = ℕ} 0 0) × (0xffff_fff0 + 9 ≡ 0xffff_fff8 + 1)
partition_injective_example =
    partition_injective 1000 0 0 0xffff_fff0 0xffff_fff8 100 100 9 1 last_part overlapping
      last_part_ok overlapping_ok (omega arith) (omega arith) (omega arith) refl
