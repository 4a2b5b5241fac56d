-- ===== src/Hardware/Nvml/Applied.antt =====
-- `GpuManagement::apply` as a whole.
use supryolo.Base.{
  ℕ, ◌≡◌, refl, sym, List, [], ◌∷◌, ◌++◌, ◌⊎◌, inl, inr, Bool-cases, Result, ok, err, All,
  append-nil,
}
use supryolo.Base.Bytes.{codes}
use supryolo.Job.{to_string}
use supryolo.Actions.{lift, and_then}
use supryolo.Hardware.Amd.{FilePath, Files}
use supryolo.Hardware.Journal.{Journal, Answers, amd_apply}
use supryolo.Hardware.Nvml.{
  GpuControls, requested, Nvml, Managed, Setting, Resolved, amd, nvidia, Task, Events, plan,
}
use supryolo.Hardware.Nvml.Apply.{
  apply_power, apply_core, apply_memory, apply_fan, apply_nvidia, apply_plan, apply_resolved,
  relabelled, apply_task, apply_all, apply,
}
use supryolo.Hardware.Nvml.Sanctioned.{
  Sanctioned, Behind, Behind-refl, and_then-Only, amd_apply-Only, Fits,
}
use supryolo.Hardware.Nvml.Limits.{
  TaskFits, plan-Fits, Fine, power-Fine, core-Fine, memory-Fine, fan-Fine,
}

module _ (answers : Answers) (nvml : Nvml) where
  nvidia-Fine :
      (label : List ℕ) (s : Setting) (h mw n : ℕ)
      → Fits nvml s (nvidia h mw n)
      → Fine answers nvml (apply_nvidia answers label s h mw n)
  unfolding apply_nvidia
  nvidia-Fine label s h mw n (core, memory, watts, fan) =
      and_then-Only (Sanctioned nvml) (apply_power answers label h mw s.watts) _
        (power-Fine answers nvml label h mw s.watts watts)
        (λ e1.
          and_then-Only (Sanctioned nvml) (apply_core answers label h s.core) _
            (core-Fine answers nvml label h s.core core)
            (λ e2.
              and_then-Only (Sanctioned nvml) (apply_memory answers label h s.memory) _
                (memory-Fine answers nvml label h s.memory memory)
                (λ e3.
                  and_then-Only (Sanctioned nvml) (apply_fan answers label h n s.fan) _
                    (fan-Fine answers nvml label h n s.fan fan)
                    (λ e4. Behind-refl (Sanctioned nvml)))))

  resolved-Fine :
      (label : List ℕ) (s : Setting) (r : Resolved)
      → Fits nvml s r
      → Fine answers nvml (apply_resolved answers label s r)
  unfolding apply_resolved apply_plan
  resolved-Fine label s (amd p) f =
      and_then-Only (Sanctioned nvml) (amd_apply answers p) _
        (amd_apply-Only (Sanctioned nvml) answers (λ w. tt) p) (λ u. Behind-refl (Sanctioned nvml))
  resolved-Fine label s (nvidia h mw n) f = nvidia-Fine label s h mw n f

  task-Fine : (t : Task) → TaskFits nvml t → Fine answers nvml (apply_task answers t)
  unfolding apply_task
  task-Fine t f j =
      go _ (resolved-Fine (codes "GPU" ++ to_string t.info.index) t.setting t.resolved f j)
    where
      go :
          (x : Result Events × Journal)
          → Behind (Sanctioned nvml) j x.1
          → Behind (Sanctioned nvml) j (relabelled answers x).1
      go (ok es, j') h = h
      go (err why, j') h = h

  all-Fine : (ts : List Task) → All (TaskFits nvml) ts → Fine answers nvml (apply_all answers ts)
  unfolding apply_all
  all-Fine [] f = Behind-refl (Sanctioned nvml)
  all-Fine (t ∷ ts) (f, fs) =
      and_then-Only (Sanctioned nvml) (apply_task answers t) _ (task-Fine t f) (λ es.
        and_then-Only (Sanctioned nvml) (apply_all answers ts) _ (all-Fine ts fs)
          (λ rest. Behind-refl (Sanctioned nvml)))

  -- Whatever NVML, the files and the devices answer, and whether `apply` returns or throws: the journal
  -- has grown by some commands, all of which keep to what NVML tells of their device (a power limit in
  -- its range, at most 10000 MHz for the core and 100000 MHz for the memory, at most 100 percent for a
  -- fan that it has; writes to files are not looked at); and when there was any, every device and all
  -- limits had been validated before.
  pub apply-Sanctioned :
      (files : Files) (root : FilePath) (ms : List Managed) (c : GpuControls) (j : Journal)
      → (new : Journal) × ((apply answers files root nvml ms c j).1 ≡ j ++ new)
        × All (λ e. Sanctioned nvml e.0) new
        × ((new ≡ []) ⊎ ((ts : List Task) × (plan files root nvml ms c ≡ ok ts)))
  unfolding apply
  apply-Sanctioned files root ms c j = elim (Bool-cases (requested c)) [
    | inr nothing ↦ rw nothing (none_given j)
    | inl wanted ↦ rw wanted (planned (plan files root nvml ms c) refl)
  ]
    where
      none_given :
          (j : Journal)
          → (new : Journal) × (j ≡ j ++ new)
            × All (λ e. Sanctioned nvml e.0) new
            × ((new ≡ []) ⊎ ((ts : List Task) × (plan files root nvml ms c ≡ ok ts)))
      none_given j = ([], sym (append-nil j), tt, inl refl)

      planned :
          (r : Result (List Task))
          → plan files root nvml ms c ≡ r
          → (new : Journal) × ((and_then (lift r j) (apply_all answers)).1 ≡ j ++ new)
            × All (λ e. Sanctioned nvml e.0) new
            × ((new ≡ []) ⊎ ((ts : List Task) × (plan files root nvml ms c ≡ ok ts)))
      planned (err why) e = none_given j
      planned (ok ts) e =
          let (new, grown, ps) = all-Fine ts (plan-Fits files root nvml ms c ts e) j in
          (new, grown, ps, inr (ts, e))
