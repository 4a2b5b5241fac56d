-- ===== src/Hardware/Nvml/Apply.antt =====
-- src/hardware/nvml.cpp: the second loop of `GpuManagement::apply`, and the whole.
use supryolo.Base.{
  ℕ, zero, suc, ◌+◌, ◌/◌, List, [], ◌∷◌, ◌++◌, Option, none, some, ◌==◌, if◌then◌else◌, Result, ok,
  err, String, not,
}
use supryolo.Base.Bytes.{codes}
use supryolo.Job.{to_string}
use supryolo.Actions.{Action, pure, lift, and_then, ◌>>=◌, ◌>>◌}
use supryolo.Hardware.Amd.{FilePath, Files, Plan}
use supryolo.Hardware.Journal.{
  set_power, lock_core, lock_memory, reset_core, reset_memory, set_fan, default_fan, Journal,
  Answers, issue, amd_apply,
}
use supryolo.Hardware.Nvml.{
  GpuControls, requested, Nvml, Managed, Setting, Resolved, amd, nvidia, Task, Events, plan,
}

-- `0` resets a setting.
abbrev pub told : ℕ → String → List ℕ
told n unit = if n == 0 then codes "automatic" else to_string n ++ codes unit

abbrev pub applied : List ℕ → String → List ℕ → Events
applied label what value = (label ++ (codes what ++ (value ++ codes " applied"))) ∷ []

module _ (answers : Answers) where
  unfoldable pub apply_power : List ℕ → ℕ → ℕ → Option ℕ → Action Journal Events
  apply_power label h mw none = pure []
  apply_power label h mw (some watts) = do
    issue answers "nvmlDeviceSetPowerManagementLimit" (set_power h mw)
    pure (applied label " power limit " (to_string (mw / 1000) ++ codes " W"))

  unfoldable pub apply_core : List ℕ → ℕ → Option ℕ → Action Journal Events
  apply_core label h none = pure []
  apply_core label h (some mhz) = do
    issue answers
        (if mhz == 0 then "nvmlDeviceResetGpuLockedClocks" else "nvmlDeviceSetGpuLockedClocks")
        (if mhz == 0 then reset_core h else lock_core h mhz)
    pure (applied label " core clock " (told mhz " MHz"))

  unfoldable pub apply_memory : List ℕ → ℕ → Option ℕ → Action Journal Events
  apply_memory label h none = pure []
  apply_memory label h (some mhz) = do
    issue answers
        (if mhz == 0
          then "nvmlDeviceResetMemoryLockedClocks"
          else "nvmlDeviceSetMemoryLockedClocks")
        (if mhz == 0 then reset_memory h else lock_memory h mhz)
    pure (applied label " memory clock " (told mhz " MHz"))

  -- The loop over the fans, with `k` of them left.
  unfoldable pub apply_fans : ℕ → ℕ → ℕ → ℕ → Action Journal (Unit {0})
  apply_fans zero f h percent = pure tt
  apply_fans (suc k) f h percent = do
    issue answers
        (if percent == 0 then "nvmlDeviceSetDefaultFanSpeed_v2" else "nvmlDeviceSetFanSpeed_v2")
        (if percent == 0 then default_fan h f else set_fan h f percent)
    apply_fans k (f + 1) h percent

  unfoldable pub apply_fan : List ℕ → ℕ → ℕ → Option ℕ → Action Journal Events
  apply_fan label h n none = pure []
  apply_fan label h n (some percent) = do
    apply_fans n 0 h percent
    pure (applied label " fan " (told percent "%"))

  unfoldable pub apply_nvidia : List ℕ → Setting → ℕ → ℕ → ℕ → Action Journal Events
  apply_nvidia label s h mw n = do
    powered ← apply_power label h mw s.watts
    cored ← apply_core label h s.core
    stored ← apply_memory label h s.memory
    fanned ← apply_fan label h n s.fan
    pure (powered ++ (cored ++ (stored ++ fanned)))

  label_all : List ℕ → Events → Events
  label_all label [] = []
  label_all label (e ∷ es) = (label ++ (b' ' ∷ e)) ∷ label_all label es

  unfoldable pub apply_plan : List ℕ → Plan → Action Journal Events
  unfolding label_all
  apply_plan label p = do amd_apply answers p; pure (label_all label p.events)

  unfoldable pub apply_resolved : List ℕ → Setting → Resolved → Action Journal Events
  apply_resolved label s (amd p) = apply_plan label p
  apply_resolved label s (nvidia h mw n) = apply_nvidia label s h mw n

  -- The handler of the exception gives it another text.
  abbrev pub relabelled : Result Events × Journal → Result Events × Journal
  relabelled (ok es, j) = (ok es, j)
  relabelled (err why, j) =
      (err "GPU control failed. Earlier successfully applied settings remain active", j)

  unfoldable pub apply_task : Task → Action Journal Events
  apply_task t j =
      relabelled (apply_resolved (codes "GPU" ++ to_string t.info.index) t.setting t.resolved j)

  unfoldable pub apply_all : List Task → Action Journal Events
  apply_all [] = pure []
  apply_all (t ∷ ts) = do es ← apply_task t; rest ← apply_all ts; pure (es ++ rest)

  unfoldable pub apply :
      Files → FilePath → Nvml → List Managed → GpuControls → Action Journal Events
  apply files root nvml ms c j =
      if not (requested c)
      then pure [] j
      else and_then (lift (plan files root nvml ms c) j) apply_all
