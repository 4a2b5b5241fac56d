-- ===== src/Opencl/Runs.antt =====
-- Small devices, and the theorems at concrete inputs.
use supryolo.Base.{
  ℕ, zero, suc, ◌+◌, ◌≡◌, refl, List, [], ◌∷◌, true, false, none, some, replicate, ok, All,
}
use supryolo.Base.Bytes.{codes}
use supryolo.Words.{store_le, overwrite}
use supryolo.Blake2b.{blake2b256, load_words, initial_state, rounds, digest}
use supryolo.Target.{meets, lex_less}
use supryolo.Work.{Work, zero_header}
use supryolo.Cpu.{Scan}
use supryolo.Cpu.Scanned.{Ascends, IsFound}
use supryolo.Miner.Select.{GpuInfo, cuda}
use supryolo.Sv2.Session.Settle.{text_eq}
use supryolo.Opencl.Candidates.{
  big_endian, high, words_from, check_candidate, check_candidates, sort, insert, has_repeat,
  validated,
}
use supryolo.Opencl.Prepare.{prepared, early_steps}
use supryolo.Opencl.Host.{Library, arg, prepare, launch, read_candidates, candidates, scan}
use supryolo.Opencl.Validated.{scan-IsFound}
use supryolo.Opencl.Devices.{
  Handle, Device, Listing, missing, listed, enumerate, visit_platforms, visit_all, visit, add,
  is_seen, pci_or, pci_text, topology_text, padded, hex_number, board_name, gpu_devices,
  opencl_devices, keep_infos, append_numbered, described,
}
use supryolo.Opencl.Devices.Numbered.{Numbered, Apart, enumerate-Numbered}
use supryolo.Opencl.Devices.Gpus.{InOrder, gpu_devices-InOrder}

-- A device that finds this many nonces.
abbrev finding : ℕ → (ℕ → ℕ) → Library (Unit {0})
finding n memory = record {
  write_input = λ words s. (true, s);
  write_hits = λ k s. (true, s);
  set_argument = λ k i a s. (true, s);
  enqueue = λ k g b s. (true, s);
  read_hits = λ s. (some n, s);
  read_nonces = λ k s. (some memory, s);
  create_buffer = λ k s. (some 0, s);
  read_hashes = λ b k s. (some [], s);
  release = λ b s. s;
}

abbrev easy : Work
easy = record { header = zero_header; target = replicate 32 255 }

abbrev found_two : Scan
found_two = record { hashes = 4; nonces = 7 ∷ 9 ∷ [] }

-- Nonces in any order come back sorted.
scanned :
    scan (finding 2 (λ i. elim i [ zero ↦ 9 | suc j ↦ 7 ])) 64 easy 7 4 tt ≡ (ok found_two, tt)
unfolding scan candidates prepare prepared early_steps arg launch read_candidates words_from
    validated check_candidates check_candidate sort insert has_repeat high meets lex_less overwrite
    store_le blake2b256 load_words initial_state rounds digest big_endian
scanned = refl

scan-IsFound_example :
    (found_two.hashes ≡ 4)
    × Ascends 7 found_two.nonces
    × All (IsFound easy 7 (7 + 4)) found_two.nonces
scan-IsFound_example =
    scan-IsFound (finding 2 (λ i. elim i [ zero ↦ 9 | suc j ↦ 7 ])) 64 7 4 easy tt tt found_two
      scanned

abbrev radeon : Handle
radeon = record {
  available = some true;
  compiler = some true;
  little = some true;
  vendor = some 0x1002;
  bus_info = some (0, 3, 0, 0);
  topology = none;
  name = some (codes "gfx1100");
  board = some (codes "Radeon");
}

abbrev arc : Handle
arc = record {
  available = some true;
  compiler = some true;
  little = some true;
  vendor = some 0x8086;
  bus_info = none;
  topology = none;
  name = some (codes "Arc");
  board = none;
}

-- One card behind two platforms, and another GPU.
abbrev platforms : Listing (Listing Handle)
platforms = listed (listed (radeon ∷ []) ∷ missing ∷ listed (radeon ∷ arc ∷ []) ∷ [])

abbrev two_devices : List Device
two_devices = described radeon (codes "gfx1100") 0 ∷ described arc (codes "Arc") 1 ∷ []

enumerated : enumerate platforms ≡ ok two_devices
unfolding enumerate visit_platforms visit_all visit add is_seen pci_or pci_text topology_text padded
    hex_number board_name text_eq
enumerated = refl

radeon_place : pci_or (some (0, 3, 0, 0)) radeon ≡ codes "0000:03:00.0"
unfolding pci_or pci_text padded hex_number
radeon_place = refl

enumerate-Numbered_example : Numbered 0 two_devices × Apart two_devices
enumerate-Numbered_example = enumerate-Numbered platforms two_devices enumerated

abbrev geforce : GpuInfo
geforce = record {
  index = 0;
  name = codes "RTX";
  pci_bus = codes "0000:01:00.0";
  api = cuda;
  backend_index = none;
  amd = false;
}

abbrev all_gpus : List GpuInfo
all_gpus =
    record geforce { backend_index = some 0 }
    ∷ record (described radeon (codes "gfx1100") 0).info { index = 1 }
    ∷ []

listed_gpus : gpu_devices (codes "auto") (geforce ∷ []) platforms ≡ ok all_gpus
unfolding gpu_devices opencl_devices enumerate visit_platforms visit_all visit add is_seen pci_or
    pci_text topology_text padded hex_number board_name text_eq keep_infos append_numbered
listed_gpus = refl

gpu_devices-InOrder_example : InOrder 0 all_gpus
gpu_devices-InOrder_example =
    gpu_devices-InOrder (codes "auto") (geforce ∷ []) platforms all_gpus (refl, tt) listed_gpus
