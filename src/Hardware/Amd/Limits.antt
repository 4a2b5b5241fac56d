-- ===== src/Hardware/Amd/Limits.antt =====
-- What a plan may write, and where.
use supryolo.Base.{
  ℕ, ◌+◌, ◌*◌, ◌/◌, ◌%◌, ◌^◌, ◌≤◌, ◌≡◌, refl, ap, subst, ◌∙◌, arith, List, [], ◌∷◌, Bool, true,
  false, not, ◌||◌, inl, inr, Bool-cases, Option, none, some, leb, ltb, ◌==◌, ok, require,
  require-ok, ok-injective, >>=-eq-ok, All, All-append, String,
}
use supryolo.Base.Bytes.{codes}
use supryolo.Job.{to_string}
use supryolo.Miner.Select.{GpuInfo}
use supryolo.Sv2.Session.Settle.{text_eq}
use supryolo.Hardware.Text.{lines, fits, pci_pattern}
use supryolo.Hardware.Amd.Levels.{IsLevel, find_level-IsLevel}
use supryolo.Hardware.Amd.{
  FilePath, ◌//◌, Files, Write, Plan, empty_plan, contents, number, word, find_hwmon, add,
  is_missing, want,
}
use supryolo.Hardware.Amd.Control.{
  requested_power, checked_power, plan_power, level, level_of, plan_level, lock_clocks,
  reset_clocks, is_some, is_reset, is_set, plan_clocks, manual_fan, automatic_fan, plan_fan,
  amd_control_plan,
}

module _ (files : Files) where
  -- The lines of a table of clocks.
  abbrev pub clock_table : FilePath → List (List ℕ)
  clock_table file = lines (contents (files.text file))

  -- The writes to files of a device and of its hwmon directory, for the clocks that were asked for.
  pub data Permitted (device hw : FilePath) (core memory : Option ℕ) : Write → Type 0 where
    -- A power limit in the driver's range.
    power :
        (n lo hi : ℕ)
        → number files (hw // "power1_cap_min") ≡ some lo
        → number files (hw // "power1_cap_max") ≡ some hi
        → lo ≤ n
        → n ≤ hi
        → Permitted device hw core memory
            (record { path = hw // "power1_cap"; value = to_string n })
    automatic :
        Permitted device hw core memory
          (record { path = device // "power_dpm_force_performance_level"; value = codes "auto" })
    manual :
        Permitted device hw core memory
          (record { path = device // "power_dpm_force_performance_level"; value = codes "manual" })
    -- The index of a line of the table that has the MHz that were asked for.
    core_level :
        (mhz : ℕ) (l : List ℕ)
        → core ≡ some mhz
        → IsLevel mhz (clock_table (device // "pp_dpm_sclk")) l
        → Permitted device hw core memory (record { path = device // "pp_dpm_sclk"; value = l })
    memory_level :
        (mhz : ℕ) (l : List ℕ)
        → memory ≡ some mhz
        → IsLevel mhz (clock_table (device // "pp_dpm_mclk")) l
        → Permitted device hw core memory (record { path = device // "pp_dpm_mclk"; value = l })
    own_fan :
        Permitted device hw core memory (record { path = hw // "pwm1_enable"; value = codes "2" })
    taken_fan :
        Permitted device hw core memory (record { path = hw // "pwm1_enable"; value = codes "1" })
    -- A duty that is at most the driver's maximum.
    duty :
        (n maximum : ℕ)
        → number files (hw // "pwm1_max") ≡ some maximum
        → n ≤ maximum
        → Permitted device hw core memory (record { path = hw // "pwm1"; value = to_string n })

  -- To a file that is there.
  abbrev pub Allowed : FilePath → FilePath → Option ℕ → Option ℕ → Write → Type 0
  Allowed device hw core memory w = (files.exists w.path ≡ true) × Permitted device hw core memory w

  abbrev pub AllAllowed : FilePath → FilePath → Option ℕ → Option ℕ → Plan → Type 0
  AllAllowed device hw core memory p = All (Allowed device hw core memory) p.writes

  add-Allowed :
      (device hw file : FilePath) (core memory : Option ℕ) (value : List ℕ) (p p' : Plan)
      → Permitted device hw core memory (record { path = file; value = value })
      → AllAllowed device hw core memory p
      → add files file value p ≡ ok p'
      → AllAllowed device hw core memory p'
  unfolding add
  add-Allowed device hw file core memory value p p' permitted h e =
      elim (Bool-cases (files.exists file)) [
        | inr missing ↦ cc (rw missing at e)
        | inl there ↦ subst (AllAllowed device hw core memory) (ok-injective (rw there at e)) (
            All-append (Allowed device hw core memory) p.writes
              (record { path = file; value = value } ∷ []) h ((there, permitted), tt))
      ]

  want-ok : {A : Type 0} (o : Option A) (why : String) (a : A) → want o why ≡ ok a → o ≡ some a
  want-ok none why a e = cc
  want-ok (some b) why a e = ap some (ok-injective e)

  within : (n lo hi : ℕ) → not (ltb n lo || ltb hi n) ≡ true → (lo ≤ n) × (n ≤ hi)
  within n lo hi h = ground arith

  power-Allowed :
      (device hw : FilePath) (core memory : Option ℕ) (o : Option ℕ) (p p' : Plan)
      → AllAllowed device hw core memory p
      → plan_power files hw o p ≡ ok p'
      → AllAllowed device hw core memory p'
  unfolding plan_power checked_power
  power-Allowed device hw core memory none p p' h e =
      subst (AllAllowed device hw core memory) (ok-injective e) h
  power-Allowed device hw core memory (some watts) p p' h e =
      let (u, there, e1) = >>=-eq-ok (require (not (is_missing hw)) _) _ e in
      let (n, checked, e2) = >>=-eq-ok (checked_power files hw watts) _ e1 in
      let (p1, added, e3) = >>=-eq-ok (add files (hw // "power1_cap") (to_string n) p) _ e2 in
      let (lo, low, c1) = >>=-eq-ok (want (number files (hw // "power1_cap_min")) _) _ checked in
      let (hi, high, c2) = >>=-eq-ok (want (number files (hw // "power1_cap_max")) _) _ c1 in
      let (n', asked, c3) = >>=-eq-ok (want (requested_power files hw watts) _) _ c2 in
      let (u', in_range, c4) = >>=-eq-ok (require (not (ltb n' lo || ltb hi n')) _) _ c3 in
      let same : n' ≡ n = ok-injective c4 in
      let (above, below) = within n' lo hi (require-ok _ _ in_range) in
      subst (AllAllowed device hw core memory) (ok-injective e3) (
        add-Allowed device hw (hw // "power1_cap") core memory (to_string n) p p1
          (power n lo hi (want-ok _ _ lo low) (want-ok _ _ hi high) (omega arith) (omega arith)) h
          added)

  level_of-IsLevel :
      (file : FilePath) (o : Option ℕ) (l : List ℕ)
      → level_of files file o ≡ ok (some l)
      → (mhz : ℕ) × (o ≡ some mhz) × IsLevel mhz (clock_table file) l
  unfolding level_of level
  level_of-IsLevel file none l e = cc
  level_of-IsLevel file (some mhz) l e =
      let (l', found, e1) = >>=-eq-ok (level files file mhz) _ e in
      (mhz, refl, find_level-IsLevel mhz (clock_table file) l (found ∙ cc (e1)))

  plan_level-Allowed :
      (device hw file : FilePath) (core memory : Option ℕ) (what : String) (mhz : Option ℕ)
      (o : Option (List ℕ)) (p p' : Plan)
      → ((l : List ℕ)
          → o ≡ some l
          → Permitted device hw core memory (record { path = file; value = l }))
      → AllAllowed device hw core memory p
      → plan_level files file what mhz o p ≡ ok p'
      → AllAllowed device hw core memory p'
  unfolding plan_level
  plan_level-Allowed device hw file core memory what mhz none p p' permitted h e =
      subst (AllAllowed device hw core memory) (ok-injective e) h
  plan_level-Allowed device hw file core memory what mhz (some l) p p' permitted h e =
      let (p1, added, e1) = >>=-eq-ok (add files file l p) _ e in
      subst (AllAllowed device hw core memory) (ok-injective e1)
        (add-Allowed device hw file core memory l p p1 (permitted l refl) h added)

  lock-Allowed :
      (device hw : FilePath) (core memory : Option ℕ) (p p' : Plan)
      → AllAllowed device hw core memory p
      → lock_clocks files device core memory p ≡ ok p'
      → AllAllowed device hw core memory p'
  unfolding lock_clocks
  lock-Allowed device hw core memory p p' h e =
      let (sc, core_ok, e1) = >>=-eq-ok (level_of files (device // "pp_dpm_sclk") core) _ e in
      let (mc, memory_ok, e2) = >>=-eq-ok (level_of files (device // "pp_dpm_mclk") memory) _ e1 in
      let (p1, added, e3) =
        >>=-eq-ok (add files (device // "power_dpm_force_performance_level") _ p) _ e2 in
      let (p2, cored, e4) =
        >>=-eq-ok (plan_level files (device // "pp_dpm_sclk") "core clock DPM level " core sc p1) _
          e3 in
      plan_level-Allowed device hw (device // "pp_dpm_mclk") core memory "memory clock DPM level "
        memory mc p2 p'
        (λ l is.
          let (mhz, asked, listed) =
            level_of-IsLevel (device // "pp_dpm_mclk") memory l (memory_ok ∙ ap ok is) in
          memory_level mhz l asked listed)
        (plan_level-Allowed device hw (device // "pp_dpm_sclk") core memory "core clock DPM level "
          core sc p1 p2
          (λ l is.
            let (mhz, asked, listed) =
              level_of-IsLevel (device // "pp_dpm_sclk") core l (core_ok ∙ ap ok is) in
            core_level mhz l asked listed)
          (add-Allowed device hw _ core memory _ p p1 manual h added) cored)
        e4

  clocks-Allowed :
      (device hw : FilePath) (core memory : Option ℕ) (p p' : Plan)
      → AllAllowed device hw core memory p
      → plan_clocks files device core memory p ≡ ok p'
      → AllAllowed device hw core memory p'
  unfolding plan_clocks reset_clocks
  clocks-Allowed device hw core memory p p' h e =
      elim (Bool-cases (is_some core || is_some memory)) [
        | inr neither ↦ subst (AllAllowed device hw core memory) (ok-injective (rw neither at e)) h
        | inl wanted ↦ elim (Bool-cases (is_reset core || is_reset memory)) [
          | inr locked ↦ lock-Allowed device hw core memory p p' h (rw (wanted, locked) at e)
          | inl reset ↦ elim (Bool-cases (is_set core || is_set memory)) [
            | inl both ↦ cc (rw (wanted, reset, both) at e)
            | inr only ↦
                (let (p1, added, e1) =
                    >>=-eq-ok
                      (add files (device // "power_dpm_force_performance_level") (codes "auto") p) _
                      (rw (wanted, reset, only) at e) in
                  subst (AllAllowed device hw core memory) (ok-injective e1)
                    (add-Allowed device hw _ core memory _ p p1 automatic h added))
          ]
        ]
      ]

  scaled : (m fan : ℕ) → fan ≤ 100 → m * fan ≤ m * 100
  scaled m fan h = grind arith

  duty-bound : (m fan x : ℕ) → fan ≤ 100 → x ≡ m * fan → (x + 50) % 2 ^ 64 / 100 ≤ m
  duty-bound m fan x h e = omega (arith, scaled m fan h)

  manual-Allowed :
      (device hw : FilePath) (core memory : Option ℕ) (fan : ℕ) (p p' : Plan)
      → fan ≤ 100
      → AllAllowed device hw core memory p
      → manual_fan files hw fan p ≡ ok p'
      → AllAllowed device hw core memory p'
  unfolding manual_fan
  manual-Allowed device hw core memory fan p p' small h e =
      let (m, maximum, e1) = >>=-eq-ok (want (number files (hw // "pwm1_max")) _) _ e in
      let (u, positive, e2) = >>=-eq-ok (require (not (m == 0)) _) _ e1 in
      let (policy, current, e3) = >>=-eq-ok (want (number files (hw // "pwm1_enable")) _) _ e2 in
      let (u', known, e4) = >>=-eq-ok (require (leb policy 2) _) _ e3 in
      let before : Plan = record p {
        fan_restore = some (record { path = hw // "pwm1_enable"; value = to_string policy });
      } in
      let (p1, taken, e5) = >>=-eq-ok (add files (hw // "pwm1_enable") (codes "1") before) _ e4 in
      let (p2, added, e6) = >>=-eq-ok (add files (hw // "pwm1") _ p1) _ e5 in
      subst (AllAllowed device hw core memory) (ok-injective e6) (
        add-Allowed device hw (hw // "pwm1") core memory _ p1 p2
          (duty ((m * fan + 50) % 2 ^ 64 / 100) m (want-ok _ _ m maximum)
            (duty-bound m fan (m * fan) small refl))
          (add-Allowed device hw (hw // "pwm1_enable") core memory (codes "1") before p1 taken_fan h
            taken)
          added)

  fan-Allowed :
      (device hw : FilePath) (core memory : Option ℕ) (o : Option ℕ) (p p' : Plan)
      → AllAllowed device hw core memory p
      → plan_fan files hw o p ≡ ok p'
      → AllAllowed device hw core memory p'
  unfolding plan_fan automatic_fan
  fan-Allowed device hw core memory none p p' h e =
      subst (AllAllowed device hw core memory) (ok-injective e) h
  fan-Allowed device hw core memory (some fan) p p' h e =
      elim (Bool-cases (is_missing hw || ltb 100 fan)) [
        | inl bad ↦ cc (rw bad at e)
        | inr good ↦ elim (Bool-cases (fan == 0)) [
          | inl reset ↦
              (let (p1, added, e1) =
                  >>=-eq-ok (add files (hw // "pwm1_enable") (codes "2") p) _
                    (rw (good, reset) at e) in
                subst (AllAllowed device hw core memory) (ok-injective e1)
                  (add-Allowed device hw _ core memory _ p p1 own_fan h added))
          | inr set ↦
              manual-Allowed device hw core memory fan p p' (at_most (is_missing hw) fan good) h
                (rw (good, set) at e)
        ]
      ]
    where
      at_most : (b : Bool) (fan : ℕ) → (b || ltb 100 fan) ≡ false → fan ≤ 100
      at_most b fan h = ground arith

  -- When `amd_control_plan` makes a plan, each of its writes goes to a file that is there, and is one of
  -- these: a power limit in the range of power1_cap_min and power1_cap_max, a clock policy, a level of the
  -- core or the memory clock, a fan policy, or a fan duty of at most pwm1_max. A level is the index at the front
  -- of a line of the clock's table in which, behind a colon, stand the MHz that were asked for.
  pub plan-Allowed :
      (d : GpuInfo) (core memory watts fan : Option ℕ) (root : FilePath) (p : Plan)
      → amd_control_plan files d core memory watts fan root ≡ ok p
      → AllAllowed
          (d.pci_bus ∷ root)
          (find_hwmon files (files.entries ((d.pci_bus ∷ root) // "hwmon")))
          core
          memory
          p
  unfolding amd_control_plan
  plan-Allowed d core memory watts fan root p e =
      let device : FilePath = d.pci_bus ∷ root in
      let hw = find_hwmon files (files.entries (device // "hwmon")) in
      let (u, mapped, e1) = >>=-eq-ok (require (fits pci_pattern d.pci_bus) _) _ e in
      let (u', vendor, e2) =
        >>=-eq-ok (require (text_eq (word files (device // "vendor")) (codes "0x1002")) _) _ e1 in
      let (p1, powered, e3) = >>=-eq-ok (plan_power files hw watts empty_plan) _ e2 in
      let (p2, clocked, e4) = >>=-eq-ok (plan_clocks files device core memory p1) _ e3 in
      fan-Allowed device hw core memory fan p2 p
        (clocks-Allowed device hw core memory p1 p2
          (power-Allowed device hw core memory watts empty_plan p1 tt powered) clocked)
        e4
