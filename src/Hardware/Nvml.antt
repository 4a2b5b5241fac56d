-- ===== src/Hardware/Nvml.antt =====
-- src/hardware/nvml.cpp and include/yolo/hardware.hpp: `broadcast_values` and `GpuManagement::apply`. What NVML
-- answers is an argument, and so is whether a command succeeds; events are labelled by `GPU` and the number.
pub mod Apply
pub mod Sanctioned
pub mod Limits
pub mod Applied
use supryolo.Base.{
  ℕ, zero, suc, ◌+◌, ◌-◌, ◌*◌, ◌/◌, ◌%◌, ◌^◌, List, [], ◌∷◌, ◌++◌, Bool, true, false, not, ◌&&◌,
  ◌||◌, Option, none, some, length, map, replicate, get_or, leb, ltb, ◌==◌, if◌then◌else◌, Result,
  ok, err, ◌>>=◌, ◌>>◌, require, String,
}
use supryolo.Base.Bytes.{codes}
use supryolo.Job.{to_string}
use supryolo.Miner.Select.{GpuInfo}
use supryolo.Actions
use supryolo.Actions.{Action, pure, lift, and_then}
use supryolo.Hardware.Amd.{FilePath, Files, Plan, want}
use supryolo.Hardware.Amd.Control.{amd_control_plan}
use supryolo.Hardware.Journal.{
  Command, set_power, lock_core, lock_memory, reset_core, reset_memory, set_fan, default_fan,
  Journal, Answers, issue, amd_apply,
}

pub record GpuControls : Type 0 where
  pub core_mhz : List ℕ
  pub memory_mhz : List ℕ
  pub power_watts : List ℕ
  pub fan_percent : List ℕ

abbrev pub is_empty : List ℕ → Bool
is_empty [] = true
is_empty (x ∷ v) = false

unfoldable pub requested : GpuControls → Bool
requested c =
    not (is_empty c.core_mhz)
    || (not (is_empty c.memory_mhz)
        || (not (is_empty c.power_watts) || not (is_empty c.fan_percent)))

unfoldable pub broadcast_values : List ℕ → ℕ → Result (List ℕ)
broadcast_values [] count = ok []
broadcast_values (x ∷ []) count = ok (replicate count x)
broadcast_values (x ∷ (y ∷ v)) count =
    if length (x ∷ (y ∷ v)) == count
    then ok (x ∷ (y ∷ v))
    else err "GPU control list must contain one value or one per selected GPU"

-- What NVML tells of a device; `none` when it has no such function or gives an error code.
pub record Nvml : Type 0 where
  pub constraints : ℕ → Option (ℕ × ℕ)
  pub default_limit : ℕ → Option ℕ
  pub fans : ℕ → Option ℕ

-- A device with its handle, which may be null.
pub record Managed : Type 0 where
  pub info : GpuInfo
  pub handle : Option ℕ

-- The constructor's loop; the argument is `nvmlDeviceGetHandleByPciBusId_v2`.
unfoldable pub find_handles : (List ℕ → Option ℕ) → List GpuInfo → List Managed
find_handles lookup [] = []
find_handles lookup (d ∷ ds) =
    record { info = d; handle = if d.amd then none else lookup d.pci_bus } ∷ find_handles lookup ds

-- The values for one device, from the lists that `broadcast_values` made.
pub record Setting : Type 0 where
  pub core : Option ℕ
  pub memory : Option ℕ
  pub watts : Option ℕ
  pub fan : Option ℕ

abbrev pub value : List ℕ → ℕ → Option ℕ
value [] i = none
value (x ∷ v) i = some (get_or (x ∷ v) i 0)

-- What the first loop keeps of a device: `amd_plans`, or `resolved_power` and `fan_count`.
pub data Resolved : Type 0 where
  amd : Plan → Resolved
  nvidia : ℕ → ℕ → ℕ → Resolved

pub record Task : Type 0 where
  pub info : GpuInfo
  pub setting : Setting
  pub resolved : Resolved

abbrev pub at_most : Option ℕ → ℕ → Bool
at_most none limit = true
at_most (some n) limit = leb n limit

module _ (files : Files) (root : FilePath) (nvml : Nvml) where
  unfoldable pub milliwatts : ℕ → ℕ → Result ℕ
  milliwatts h watts =
      if watts == 0
      then want (nvml.default_limit h) "Default GPU power limit unavailable"
      else ok (watts * 1000 % 2 ^ 32)

  unfoldable pub resolve_power : ℕ → Option ℕ → Result ℕ
  resolve_power h none = ok 0
  resolve_power h (some watts) = do
    range ← want (nvml.constraints h) "nvmlDeviceGetPowerManagementLimitConstraints"
    require (leb watts ((2 ^ 32 - 1) / 1000)) "GPU power limit overflow"
    mw ← milliwatts h watts
    require (not (ltb mw range.0 || ltb range.1 mw)) "GPU power limit outside driver range"
    ok mw

  unfoldable pub resolve_fan : ℕ → Option ℕ → Result ℕ
  resolve_fan h none = ok 0
  resolve_fan h (some percent) = do
    require (leb percent 100) "GPU fan speed must be 0 (automatic) or 1..100 percent"
    n ← want (nvml.fans h) "nvmlDeviceGetNumFans"
    require (not (n == 0)) "GPU fan control unsupported on this device"
    ok n

  unfoldable pub validate_nvidia : Option ℕ → Setting → Result Resolved
  validate_nvidia none s = err "Cannot configure GPU: NVML device unavailable"
  validate_nvidia (some h) s = do
    require (at_most s.core 10000) "GPU core clock out of range (MHz)"
    require (at_most s.memory 100000) "GPU memory clock out of range (MHz)"
    mw ← resolve_power h s.watts
    n ← resolve_fan h s.fan
    ok (nvidia h mw n)

  unfoldable pub validate_amd : GpuInfo → Setting → Result Resolved
  validate_amd d s = do p ← amd_control_plan files d s.core s.memory s.watts s.fan root; ok (amd p)

  -- The body of the first loop.
  unfoldable pub validate : Managed → Setting → Result Resolved
  validate m s =
      let a = validate_amd m.info s in
      let n = validate_nvidia m.handle s in if m.info.amd then a else n

  -- The first loop, from device `i` on.
  unfoldable pub validate_all : (ℕ → Setting) → ℕ → List Managed → Result (List Task)
  validate_all settings i [] = ok []
  validate_all settings i (m ∷ ms) = do
    r ← validate m (settings i)
    rest ← validate_all settings (i + 1) ms
    ok (record { info = m.info; setting = settings i; resolved = r } ∷ rest)

  unfoldable pub plan : List Managed → GpuControls → Result (List Task)
  plan ms c = do
    require (not (length ms == 0)) "GPU controls supplied with no selected GPU"
    core ← broadcast_values c.core_mhz (length ms)
    memory ← broadcast_values c.memory_mhz (length ms)
    watts ← broadcast_values c.power_watts (length ms)
    fan ← broadcast_values c.fan_percent (length ms)
    validate_all
        (λ i. record {
          core = value core i;
          memory = value memory i;
          watts = value watts i;
          fan = value fan i;
        })
        0 ms

abbrev pub Events : Type 0
Events = List (List ℕ)
