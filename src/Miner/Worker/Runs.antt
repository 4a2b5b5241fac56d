-- ===== src/Miner/Worker/Runs.antt =====
-- The theorems at concrete inputs.
use supryolo.Base.{ℕ, ◌+◌, ◌*◌, ◌^◌, ◌≤◌, ◌≡◌, refl, arith, List, [], ◌∷◌, ok}
use supryolo.Job.{empty_job}
use supryolo.Sv2.Partition.{Partition, partition}
use supryolo.Miner.Worker.{Shared, reserve, place_slot}
use supryolo.Miner.Worker.Disjoint.{reserve_all, AllApart, reserve_all-apart, place_slot_injective}

-- The cursor stands just before the end of a nonce range.
abbrev before : Shared
before = record { generation = 0; cursor = 0xffff_fff0; found = [] }

abbrev after : Shared
after = record { generation = 0; cursor = 0x1_0000_0064; found = [] }

abbrev parts : List Partition
parts =
    record { nonce = 0xffff_fff0; ntime = 0; count = 16 }
    ∷ record { nonce = 0; ntime = 1; count = 50 }
    ∷ record { nonce = 50; ntime = 1; count = 50 }
    ∷ []

parts_ok : reserve_all empty_job (100 ∷ 50 ∷ 50 ∷ []) before ≡ ok (after, parts)
unfolding reserve_all reserve partition
parts_ok = refl

reserve_all-apart_example : AllApart parts
reserve_all-apart_example =
    reserve_all-apart empty_job (100 ∷ 50 ∷ 50 ∷ []) before after parts parts_ok

first_slot : place_slot empty_job 255 7 16 ≡ ok (empty_job, 255 * 2 ^ 56 + 7, 16)
unfolding place_slot
first_slot = refl

place_slot_injective_example :
    (◌≡◌ {A = ℕ} 255 255) × (7 + 3 ≡ 7 + 3) × ((255 * 2 ^ 56 + 7) + 16 ≤ 2 ^ 64)
place_slot_injective_example =
    place_slot_injective empty_job 255 255 7 7 16 16 3 3 (empty_job, 255 * 2 ^ 56 + 7, 16)
      (empty_job, 255 * 2 ^ 56 + 7, 16) first_slot first_slot (omega arith) (omega arith)
      (omega arith) (omega arith) (omega arith) (omega arith) refl
