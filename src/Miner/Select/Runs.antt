-- ===== src/Miner/Select/Runs.antt =====
-- The theorems at concrete inputs.
use supryolo.Base.{ℕ, ◌≤◌, ◌<◌, ◌≡◌, refl, [], ◌∷◌, true, false, none, length, map, ok}
use supryolo.Base.Bytes.{codes}
use supryolo.Miner.Select.{
  GpuInfo, Options, cuda, find_gpu, find_all, select_gpus, count_threads, select, slots,
}
use supryolo.Miner.Select.Bounds.{select-workers}

abbrev gpu : ℕ → GpuInfo
gpu n = record {
  index = n;
  name = codes "gpu";
  pci_bus = [];
  api = cuda;
  backend_index = none;
  amd = false;
}

abbrev options : Options
options = record {
  user = codes "worker";
  devices = 2 ∷ 0 ∷ [];
  devices_explicit = true;
  no_cpu = false;
  no_gpu = false;
  cpu_threads = 0;
}

selected_two : select options (gpu 0 ∷ gpu 1 ∷ gpu 2 ∷ []) 16 ≡ ok (gpu 2 ∷ gpu 0 ∷ [], 5)
unfolding select select_gpus find_all find_gpu count_threads
selected_two = refl

select-workers_example :
    (0 < length (slots (gpu 2 ∷ gpu 0 ∷ []) 5))
    × (length (slots (gpu 2 ∷ gpu 0 ∷ []) 5) ≤ 192)
    × (options.no_gpu ≡ true → gpu 2 ∷ gpu 0 ∷ [] ≡ [])
    × (options.no_gpu ≡ false
        → options.devices_explicit ≡ true
        → map (λ d. d.index) (gpu 2 ∷ gpu 0 ∷ []) ≡ options.devices)
select-workers_example =
    select-workers options (gpu 0 ∷ gpu 1 ∷ gpu 2 ∷ []) (gpu 2 ∷ gpu 0 ∷ []) 16 5 selected_two
