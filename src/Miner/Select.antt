-- ===== src/Miner/Select.antt =====
-- src/miner.cpp: which GPUs and how many CPU threads mine, and the slots that number the workers.
-- What the drivers list and how many processors there are, are arguments.
pub mod Bounds
mod Runs
use supryolo.Base.{
  ℕ, zero, suc, ◌+◌, ◌-◌, ◌/◌, max, List, [], ◌∷◌, ◌++◌, Bool, true, false, not, ◌&&◌, length, map,
  replicate, leb, ltb, ◌==◌, if◌then◌else◌, Option, none, some, Result, ok, err, ◌>>=◌, ◌>>◌,
  require,
}

pub data GpuApi : Type 0 where
  cuda opencl : GpuApi

-- A `backend_index` of -1 is `none`.
pub record GpuInfo : Type 0 where
  pub index : ℕ
  pub name : List ℕ
  pub pci_bus : List ℕ
  pub api : GpuApi
  pub backend_index : Option ℕ
  pub amd : Bool

-- The options that the selection reads.
pub record Options : Type 0 where
  pub user : List ℕ
  pub devices : List ℕ
  pub devices_explicit : Bool
  pub no_cpu : Bool
  pub no_gpu : Bool
  pub cpu_threads : ℕ

-- `std::find_if`.
unfoldable pub find_gpu : ℕ → List GpuInfo → Result GpuInfo
find_gpu id [] = err "GPU device unavailable"
find_gpu id (d ∷ available) = if d.index == id then ok d else find_gpu id available

unfoldable pub find_all : List ℕ → List GpuInfo → Result (List GpuInfo)
find_all [] available = ok []
find_all (id ∷ ids) available = do
  d ← find_gpu id available
  rest ← find_all ids available
  ok (d ∷ rest)

unfoldable pub select_gpus : Options → List GpuInfo → Result (List GpuInfo)
select_gpus o available =
    let explicit = find_all o.devices available in
    if o.no_gpu then ok [] else if o.devices_explicit then explicit else ok available

-- `cpu_threads`, for this many logical processors and selected GPUs. A difference below 0 counts as 0.
unfoldable pub count_threads : Options → ℕ → ℕ → ℕ
count_threads o logical gpus =
    if o.no_cpu
    then 0
    else if o.cpu_threads == 0
    then max 1 (logical / 2 - gpus - 1)
    else o.cpu_threads

-- The GPUs and the number of threads.
unfoldable pub select : Options → List GpuInfo → ℕ → Result (List GpuInfo × ℕ)
select o available logical = do
  require (ltb 0 (length o.user)) "payout worker required with --user"
  require (not (o.no_cpu && o.no_gpu)) "No mining devices enabled (--no-cpu and --no-gpu)"
  selected ← select_gpus o available
  require (leb (length selected) 64) "At most 64 GPUs may be selected"
  require (not (length selected == 0 && o.no_cpu)) "No enabled GPU devices available; CPU disabled"
  let threads = count_threads o logical (length selected)
  require (leb threads 128) "At most 128 CPU threads supported"
  ok (selected, threads)

-- A `Slot`: its row in the view and its position among the GPUs, where -1 is `none`. The hashes that it
-- counts are in Miner.Worker.
pub record Slot : Type 0 where
  pub row : ℕ
  pub gpu : Option ℕ

unfoldable pub gpu_slots : ℕ → List GpuInfo → List Slot
gpu_slots row [] = []
gpu_slots row (d ∷ selected) = record { row = row; gpu = some row } ∷ gpu_slots (row + 1) selected

-- All CPU threads share the row behind the GPUs.
unfoldable pub slots : List GpuInfo → ℕ → List Slot
slots selected threads =
    gpu_slots 0 selected ++ replicate threads (record { row = length selected; gpu = none })
