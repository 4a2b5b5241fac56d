-- ===== src/Hardware/Amd/Control.antt =====
-- src/hardware/amd.cpp: `amd_control_plan`, one function for each setting.
use supryolo.Base.{
  ℕ, ◌+◌, ◌*◌, ◌/◌, ◌%◌, ◌^◌, List, [], ◌∷◌, ◌++◌, Bool, true, false, not, ◌&&◌, ◌||◌, Option, none,
  some, leb, ltb, ◌==◌, if◌then◌else◌, Result, ok, err, ◌>>=◌, ◌>>◌, require, String,
}
use supryolo.Base.Bytes.{codes}
use supryolo.Job.{to_string}
use supryolo.Sv2.Session.Settle.{text_eq}
use supryolo.Miner.Select.{GpuInfo}
use supryolo.Hardware.Text.{lines, fits, pci_pattern}
use supryolo.Hardware.Amd.{
  FilePath, ◌//◌, Files, Plan, empty_plan, contents, number, word, find_hwmon, add, note,
  is_missing, want, find_level,
}

-- Whether a setting is there, and a set one is 0, or is not.
abbrev pub is_some : Option ℕ → Bool
is_some none = false
is_some (some n) = true

abbrev pub is_reset : Option ℕ → Bool
is_reset none = false
is_reset (some n) = n == 0

abbrev pub is_set : Option ℕ → Bool
is_set none = false
is_set (some n) = not (n == 0)

module _ (files : Files) where
  -- In microwatts; 0 asks for the default.
  unfoldable pub requested_power : FilePath → ℕ → Option ℕ
  requested_power hw power =
      if power == 0 then number files (hw // "power1_cap_default") else some (power * 1000000)

  unfoldable pub checked_power : FilePath → ℕ → Result ℕ
  checked_power hw power = do
    lo ← want (number files (hw // "power1_cap_min")) "AMD power limits/default unavailable"
    hi ← want (number files (hw // "power1_cap_max")) "AMD power limits/default unavailable"
    requested ← want (requested_power hw power) "AMD power limits/default unavailable"
    require (not (ltb requested lo || ltb hi requested)) "AMD power limit outside driver range"
    ok requested

  unfoldable pub plan_power : FilePath → Option ℕ → Plan → Result Plan
  plan_power hw none p = ok p
  plan_power hw (some power) p = do
    require (not (is_missing hw)) "AMD hwmon unavailable for power control"
    requested ← checked_power hw power
    p' ← add files (hw // "power1_cap") (to_string requested) p
    ok (note (codes "power limit " ++ (to_string (requested / 1000000) ++ codes " W applied")) p')

  unfoldable pub level : FilePath → ℕ → Result (List ℕ)
  level file mhz = find_level mhz (lines (contents (files.text file)))

  unfoldable pub level_of : FilePath → Option ℕ → Result (Option (List ℕ))
  level_of file none = ok none
  level_of file (some mhz) = do l ← level file mhz; ok (some l)

  clock_event : String → Option ℕ → List ℕ
  clock_event what none = []
  clock_event what (some mhz) = codes what ++ (to_string mhz ++ codes " MHz applied")

  unfoldable pub plan_level : FilePath → String → Option ℕ → Option (List ℕ) → Plan → Result Plan
  unfolding clock_event
  plan_level file what mhz none p = ok p
  plan_level file what mhz (some l) p = do
    p' ← add files file l p
    ok (note (clock_event what mhz) p')

  unfoldable pub lock_clocks : FilePath → Option ℕ → Option ℕ → Plan → Result Plan
  lock_clocks device core memory p = do
    sc ← level_of (device // "pp_dpm_sclk") core
    mc ← level_of (device // "pp_dpm_mclk") memory
    p1 ← add files (device // "power_dpm_force_performance_level") (codes "manual") p
    p2 ← plan_level (device // "pp_dpm_sclk") "core clock DPM level " core sc p1
    plan_level (device // "pp_dpm_mclk") "memory clock DPM level " memory mc p2

  unfoldable pub reset_clocks : FilePath → Plan → Result Plan
  reset_clocks device p = do
    p' ← add files (device // "power_dpm_force_performance_level") (codes "auto") p
    ok (note (codes "core and memory clock policy automatic applied") p')

  unfoldable pub plan_clocks : FilePath → Option ℕ → Option ℕ → Plan → Result Plan
  plan_clocks device core memory p =
      let locked = lock_clocks device core memory p in
      let reset = reset_clocks device p in
      if not (is_some core || is_some memory)
      then ok p
      else if (is_reset core || is_reset memory) && (is_set core || is_set memory)
      then err "AMD clock reset applies to both domains; cannot combine reset and locked clocks"
      else if is_reset core || is_reset memory
      then reset
      else locked

  -- The duty of a fan at this percentage, rounded.
  unfoldable pub manual_fan : FilePath → ℕ → Plan → Result Plan
  manual_fan hw fan p = do
    maximum ← want (number files (hw // "pwm1_max")) "AMD fan PWM range unavailable"
    require (not (maximum == 0)) "AMD fan PWM range unavailable"
    policy ← want (number files (hw // "pwm1_enable")) "AMD current fan policy unavailable"
    require (leb policy 2) "AMD current fan policy unavailable"
    p1 ← add files (hw // "pwm1_enable") (codes "1") (record p {
      fan_restore = some (record { path = hw // "pwm1_enable"; value = to_string policy });
    })
    p2 ← add files (hw // "pwm1") (to_string ((maximum * fan + 50) % 2 ^ 64 / 100)) p1
    ok (note (codes "fan " ++ (to_string fan ++ codes "% applied")) p2)

  unfoldable pub automatic_fan : FilePath → Plan → Result Plan
  automatic_fan hw p = do
    p' ← add files (hw // "pwm1_enable") (codes "2") p
    ok (note (codes "automatic fan control applied") p')

  unfoldable pub plan_fan : FilePath → Option ℕ → Plan → Result Plan
  plan_fan hw none p = ok p
  plan_fan hw (some fan) p =
      let manual = manual_fan hw fan p in
      let automatic = automatic_fan hw p in
      if is_missing hw || ltb 100 fan
      then err "AMD fan control unavailable or invalid percentage"
      else if fan == 0
      then automatic
      else manual

  unfoldable pub amd_control_plan :
      GpuInfo → Option ℕ → Option ℕ → Option ℕ → Option ℕ → FilePath → Result Plan
  amd_control_plan d core memory power fan root = do
    require (fits pci_pattern d.pci_bus) "AMD PCI mapping unavailable"
    let device = d.pci_bus ∷ root
    require (text_eq (word files (device // "vendor")) (codes "0x1002")) "AMD PCI vendor mismatch"
    let hw = find_hwmon files (files.entries (device // "hwmon"))
    p1 ← plan_power hw power empty_plan
    p2 ← plan_clocks device core memory p1
    plan_fan hw fan p2
