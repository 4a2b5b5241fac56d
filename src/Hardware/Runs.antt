-- ===== src/Hardware/Runs.antt =====
-- A small tree of files and small devices, and the theorems at concrete inputs.
use supryolo.Base.{
  ℕ, ◌≡◌, refl, List, [], ◌∷◌, ◌++◌, Bool, true, false, ◌⊎◌, Option, none, some, if◌then◌else◌, ok,
  err, All,
}
use supryolo.Base.Bytes.{codes}
use supryolo.Job.{digits, to_string}
use supryolo.Miner.Select.{GpuInfo, cuda, opencl}
use supryolo.Sv2.Session.Settle.{text_eq}
use supryolo.Hardware.Text.{
  lines, skip_spaces, read_digits, signed, read_number, until_space, first_word, fits,
}
use supryolo.Hardware.Amd.{FilePath, Files, Write, Plan, ◌//◌, number, find_hwmon, add, find_level}
use supryolo.Hardware.Amd.Control.{
  requested_power, checked_power, plan_power, plan_clocks, lock_clocks, level, level_of, plan_level,
  manual_fan, plan_fan, amd_control_plan,
}
use supryolo.Hardware.Amd.Limits.{AllAllowed, plan-Allowed}
use supryolo.Hardware.Journal.{
  Journal, Answers, file, path_eq, write_all, rescue, amd_apply, not_restored,
}
use supryolo.Hardware.Journal.Restored.{last_written, apply-Restored}
use supryolo.Hardware.Nvml.{GpuControls, Nvml, Managed, Task, plan}
use supryolo.Hardware.Nvml.Apply.{apply}
use supryolo.Hardware.Nvml.Sanctioned.{Sanctioned}
use supryolo.Hardware.Nvml.Applied.{apply-Sanctioned}

-- The texts by file name.
abbrev table : List (List ℕ × List ℕ)
table =
    (codes "vendor", codes "0x1002")
    ∷ (codes "name", codes "amdgpu")
    ∷ (codes "power1_cap_min", codes "100000000")
    ∷ (codes "power1_cap_max", codes "300000000")
    ∷ (codes "power1_cap", codes "250000000")
    ∷ (codes "pwm1_max", codes "255")
    ∷ (codes "pwm1_enable", codes "2")
    ∷ (codes "pwm1", codes "0")
    ∷ (codes "power_dpm_force_performance_level", codes "auto")
    ∷ (codes "pp_dpm_sclk", codes "0: 500Mhz *" ++ (10 ∷ codes "1: 2000Mhz"))
    ∷ []

look_up : List ℕ → List (List ℕ × List ℕ) → Option (List ℕ)
look_up name [] = none
look_up name ((k, s) ∷ rest) =
    let more = look_up name rest in if text_eq name k then some s else more

file_text : FilePath → Option (List ℕ)
unfolding look_up
file_text [] = none
file_text (name ∷ p) = look_up name table

abbrev is_there : Option (List ℕ) → Bool
is_there none = false
is_there (some s) = true

abbrev tree : Files
tree = record {
  text = file_text;
  exists = λ p. is_there (file_text p);
  entries = λ p. (codes "hwmon3" ∷ p) ∷ [];
}

abbrev radeon : GpuInfo
radeon = record {
  index = 0;
  name = codes "Radeon";
  pci_bus = codes "0000:03:00.0";
  api = opencl;
  backend_index = some 0;
  amd = true;
}

abbrev root : FilePath
root = codes "/sys/bus/pci/devices" ∷ []

abbrev hwmon : FilePath
hwmon = codes "hwmon3" ∷ codes "hwmon" ∷ codes "0000:03:00.0" ∷ root

abbrev policy : Write
policy = record { path = hwmon // "pwm1_enable"; value = codes "2" }

abbrev fan_plan : Plan
fan_plan = record {
  writes =
      record { path = hwmon // "power1_cap"; value = codes "200000000" }
      ∷ record { path = hwmon // "pwm1_enable"; value = codes "1" }
      ∷ record { path = hwmon // "pwm1"; value = codes "128" }
      ∷ [];
  events = codes "power limit 200 W applied" ∷ codes "fan 50% applied" ∷ [];
  fan_restore = some policy;
}

planned : amd_control_plan tree radeon none none (some 200) (some 50) root ≡ ok fan_plan
unfolding amd_control_plan plan_power checked_power requested_power plan_clocks plan_fan manual_fan
    add number find_hwmon file_text look_up text_eq fits read_number signed read_digits skip_spaces
    first_word until_space to_string digits
planned = refl

-- A core clock, of which the table has the level 1.
abbrev clock_plan : Plan
clock_plan = record {
  writes =
      record {
        path = (radeon.pci_bus ∷ root) // "power_dpm_force_performance_level";
        value = codes "manual";
      }
      ∷ record { path = (radeon.pci_bus ∷ root) // "pp_dpm_sclk"; value = codes "1" }
      ∷ [];
  events = codes "core clock DPM level 2000 MHz applied" ∷ [];
  fan_restore = none;
}

clock_planned : amd_control_plan tree radeon (some 2000) none none none root ≡ ok clock_plan
unfolding amd_control_plan plan_power plan_clocks lock_clocks level level_of plan_level plan_fan
    find_level lines add number find_hwmon file_text look_up text_eq fits read_number signed
    read_digits skip_spaces first_word until_space to_string digits
clock_planned = refl

plan-Allowed_example :
    AllAllowed tree
      (radeon.pci_bus ∷ root)
      (find_hwmon tree (tree.entries ((radeon.pci_bus ∷ root) // "hwmon")))
      (some 2000)
      none
      clock_plan
plan-Allowed_example =
    plan-Allowed tree radeon (some 2000) none none none root clock_plan clock_planned

-- The third write fails, and all others succeed.
abbrev failing_duty : Answers
failing_duty [] c = true
failing_duty (a ∷ []) c = true
failing_duty (a ∷ (b ∷ [])) c = false
failing_duty (a ∷ (b ∷ (d ∷ j))) c = true

abbrev restored : Journal
restored =
    (file (record { path = hwmon // "power1_cap"; value = codes "200000000" }), true)
    ∷ (file (record { path = hwmon // "pwm1_enable"; value = codes "1" }), true)
    ∷ (file (record { path = hwmon // "pwm1"; value = codes "128" }), false)
    ∷ (file policy, true)
    ∷ []

apply_fails : amd_apply failing_duty fan_plan [] ≡ (err "AMD write failed", restored)
unfolding amd_apply write_all rescue path_eq text_eq
apply_fails = refl

apply-Restored_example :
    (last_written policy.path none restored ≡ none)
    ⊎ ((last_written policy.path none restored ≡ some policy.value)
        ⊎ (◌≡◌ "AMD write failed" (not_restored failing_duty)))
apply-Restored_example =
    apply-Restored failing_duty fan_plan policy "AMD write failed" restored refl apply_fails

abbrev geforce : Managed
geforce = record {
  info = record radeon { pci_bus = codes "0000:01:00.0"; api = cuda; amd = false };
  handle = some 5;
}

abbrev driver : Nvml
driver = record {
  constraints = λ h. some (100000, 600000);
  default_limit = λ h. some 575000;
  fans = λ h. some 2;
}

abbrev wishes : GpuControls
wishes = record {
  core_mhz = 2500 ∷ [];
  memory_mhz = [];
  power_watts = 0 ∷ [];
  fan_percent = 70 ∷ [];
}

apply-Sanctioned_example :
    (new : Journal) × ((apply (λ j c. true) tree root driver (geforce ∷ []) wishes []).1
      ≡ [] ++ new)
    × All (λ e. Sanctioned driver e.0) new
    × ((new ≡ []) ⊎ ((ts : List Task) × (plan tree root driver (geforce ∷ []) wishes ≡ ok ts)))
apply-Sanctioned_example = apply-Sanctioned (λ j c. true) driver tree root (geforce ∷ []) wishes []
