-- ===== src/Hardware/Nvml/Limits.antt =====
-- Everything that `GpuManagement::apply` gives to NVML was validated first.
use supryolo.Base.{
  ℕ, zero, suc, ◌+◌, ◌≤◌, ◌≡◌, refl, subst, arith, List, [], ◌∷◌, Bool, true, false, not, Option,
  none, some, length, ◌==◌, leb→le, if◌then◌else◌, Result, ok, require, require-ok, ok-injective,
  >>=-eq-ok, All,
}
use supryolo.Miner.Select.{GpuInfo}
use supryolo.Actions.{Action}
use supryolo.Hardware.Amd.{FilePath, Files}
use supryolo.Hardware.Amd.Control.{amd_control_plan}
use supryolo.Hardware.Journal.{
  set_power, lock_core, lock_memory, reset_core, reset_memory, set_fan, default_fan, Journal,
  Answers, issue,
}
use supryolo.Hardware.Nvml.{
  GpuControls, Nvml, Managed, Setting, Resolved, Task, at_most, resolve_power, resolve_fan,
  validate_nvidia, validate_amd, validate, validate_all, plan, broadcast_values,
}
use supryolo.Hardware.Nvml.Apply.{apply_power, apply_core, apply_memory, apply_fans, apply_fan}
use supryolo.Hardware.Nvml.Sanctioned.{
  Sanctioned, Only, Behind-refl, and_then-Only, issue-Only, Fits, power-ok, fan-ok,
}

abbrev pub TaskFits : Nvml → Task → Type 0
TaskFits nvml t = Fits nvml t.setting t.resolved

module _ (files : Files) (root : FilePath) (nvml : Nvml) where
  nvidia-Fits :
      (o : Option ℕ) (s : Setting) (r : Resolved)
      → validate_nvidia files root nvml o s ≡ ok r
      → Fits nvml s r
  unfolding validate_nvidia
  nvidia-Fits none s r e = cc
  nvidia-Fits (some h) s r e =
      let (u, core, e1) = >>=-eq-ok (require (at_most s.core 10000) _) _ e in
      let (u', memory, e2) = >>=-eq-ok (require (at_most s.memory 100000) _) _ e1 in
      let (mw, powered, e3) = >>=-eq-ok (resolve_power files root nvml h s.watts) _ e2 in
      let (n, fanned, e4) = >>=-eq-ok (resolve_fan files root nvml h s.fan) _ e3 in
      subst (Fits nvml s) (ok-injective e4) (
        require-ok _ _ core,
        require-ok _ _ memory,
        power-ok files root nvml h s.watts mw powered,
        fan-ok files root nvml h s.fan n fanned,
      )

  amd-Fits :
      (d : GpuInfo) (s : Setting) (r : Resolved)
      → validate_amd files root nvml d s ≡ ok r
      → Fits nvml s r
  unfolding validate_amd
  amd-Fits d s r e =
      let (p, planned, e1) =
        >>=-eq-ok (amd_control_plan files d s.core s.memory s.watts s.fan root) _ e in
      subst (Fits nvml s) (ok-injective e1) tt

  validate-Fits :
      (m : Managed) (s : Setting) (r : Resolved)
      → validate files root nvml m s ≡ ok r
      → Fits nvml s r
  unfolding validate
  validate-Fits m s r e =
      chosen m.info.amd (validate_amd files root nvml m.info s)
        (validate_nvidia files root nvml m.handle s) (amd-Fits m.info s r)
        (nvidia-Fits m.handle s r) e
    where
      chosen :
          (b : Bool) (x y : Result Resolved)
          → (x ≡ ok r → Fits nvml s r)
          → (y ≡ ok r → Fits nvml s r)
          → (if b then x else y) ≡ ok r
          → Fits nvml s r
      chosen true x y f g e = f e
      chosen false x y f g e = g e

  validate_all-Fits :
      (settings : ℕ → Setting) (i : ℕ) (ms : List Managed) (ts : List Task)
      → validate_all files root nvml settings i ms ≡ ok ts
      → All (TaskFits nvml) ts
  unfolding validate_all
  validate_all-Fits settings i [] ts e = subst (All (TaskFits nvml)) (ok-injective e) tt
  validate_all-Fits settings i (m ∷ ms) ts e =
      let (r, valid, e1) = >>=-eq-ok (validate files root nvml m (settings i)) _ e in
      let (rest, others, e2) = >>=-eq-ok (validate_all files root nvml settings (i + 1) ms) _ e1 in
      subst (All (TaskFits nvml)) (ok-injective e2)
        (validate-Fits m (settings i) r valid, validate_all-Fits settings (i + 1) ms rest others)

  pub plan-Fits :
      (ms : List Managed) (c : GpuControls) (ts : List Task)
      → plan files root nvml ms c ≡ ok ts
      → All (TaskFits nvml) ts
  unfolding plan
  plan-Fits ms c ts e =
      let (u, some_gpu, e1) = >>=-eq-ok (require (not (length ms == 0)) _) _ e in
      let (core, b1, e2) = >>=-eq-ok (broadcast_values c.core_mhz (length ms)) _ e1 in
      let (memory, b2, e3) = >>=-eq-ok (broadcast_values c.memory_mhz (length ms)) _ e2 in
      let (watts, b3, e4) = >>=-eq-ok (broadcast_values c.power_watts (length ms)) _ e3 in
      let (fan, b4, e5) = >>=-eq-ok (broadcast_values c.fan_percent (length ms)) _ e4 in
      validate_all-Fits _ 0 ms ts e5

module _ (answers : Answers) (nvml : Nvml) where
  abbrev pub Fine : {A : Type 0} → Action Journal A → Type 0
  Fine {A} m = Only (Sanctioned nvml) {A = A} m

  pub power-Fine :
      (label : List ℕ) (h mw : ℕ) (o : Option ℕ)
      → ((watts : ℕ) → o ≡ some watts → Sanctioned nvml (set_power h mw))
      → Fine (apply_power answers label h mw o)
  unfolding apply_power
  power-Fine label h mw none f = Behind-refl (Sanctioned nvml)
  power-Fine label h mw (some watts) f =
      and_then-Only (Sanctioned nvml) (issue answers _ (set_power h mw)) _
        (issue-Only (Sanctioned nvml) answers _ (set_power h mw) (f watts refl))
        (λ u. Behind-refl (Sanctioned nvml))

  pub core-Fine :
      (label : List ℕ) (h : ℕ) (o : Option ℕ)
      → at_most o 10000 ≡ true
      → Fine (apply_core answers label h o)
  unfolding apply_core
  core-Fine label h none f = Behind-refl (Sanctioned nvml)
  core-Fine label h (some mhz) f =
      and_then-Only (Sanctioned nvml) (issue answers _ _) _
        (issue-Only (Sanctioned nvml) answers _ (if mhz == 0 then reset_core h else lock_core h mhz)
          (either (mhz == 0)))
        (λ u. Behind-refl (Sanctioned nvml))
    where
      either : (b : Bool) → Sanctioned nvml (if b then reset_core h else lock_core h mhz)
      either true = tt
      either false = leb→le mhz 10000 f

  pub memory-Fine :
      (label : List ℕ) (h : ℕ) (o : Option ℕ)
      → at_most o 100000 ≡ true
      → Fine (apply_memory answers label h o)
  unfolding apply_memory
  memory-Fine label h none f = Behind-refl (Sanctioned nvml)
  memory-Fine label h (some mhz) f =
      and_then-Only (Sanctioned nvml) (issue answers _ _) _
        (issue-Only (Sanctioned nvml) answers _
          (if mhz == 0 then reset_memory h else lock_memory h mhz) (either (mhz == 0)))
        (λ u. Behind-refl (Sanctioned nvml))
    where
      either : (b : Bool) → Sanctioned nvml (if b then reset_memory h else lock_memory h mhz)
      either true = tt
      either false = leb→le mhz 100000 f

  fans-Fine :
      (n k f h percent : ℕ)
      → f + k ≤ n
      → percent ≤ 100
      → nvml.fans h ≡ some n
      → Fine (apply_fans answers k f h percent)
  unfolding apply_fans
  fans-Fine n zero f h percent small ok_percent fans = Behind-refl (Sanctioned nvml)
  fans-Fine n (suc k) f h percent small ok_percent fans =
      and_then-Only (Sanctioned nvml) (issue answers _ _) _
        (issue-Only (Sanctioned nvml) answers _
          (if percent == 0 then default_fan h f else set_fan h f percent) (either (percent == 0)))
        (λ u. fans-Fine n k (f + 1) h percent (omega arith) ok_percent fans)
    where
      either : (b : Bool) → Sanctioned nvml (if b then default_fan h f else set_fan h f percent)
      either true = (n, fans, omega arith)
      either false = (ok_percent, (n, fans, omega arith))

  pub fan-Fine :
      (label : List ℕ) (h n : ℕ) (o : Option ℕ)
      → ((percent : ℕ) → o ≡ some percent → (percent ≤ 100) × (nvml.fans h ≡ some n))
      → Fine (apply_fan answers label h n o)
  unfolding apply_fan
  fan-Fine label h n none f = Behind-refl (Sanctioned nvml)
  fan-Fine label h n (some percent) f =
      and_then-Only (Sanctioned nvml) (apply_fans answers n 0 h percent) _
        (fans-Fine n n 0 h percent (omega arith) (f percent refl).0 (f percent refl).1)
        (λ u. Behind-refl (Sanctioned nvml))
