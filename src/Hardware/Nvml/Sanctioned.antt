-- ===== src/Hardware/Nvml/Sanctioned.antt =====
-- The commands that `GpuManagement::apply` gives to NVML.
use supryolo.Base.{
  ℕ, ◌-◌, ◌/◌, ◌^◌, ◌≤◌, ◌<◌, ◌≡◌, refl, sym, ap, subst, ◌∙◌, arith, List, [], ◌∷◌, ◌++◌, Bool,
  true, false, not, ◌||◌, Option, none, some, leb, ltb, ◌==◌, leb→le, if◌then◌else◌, Result, ok,
  err, require, require-ok, ok-injective, >>=-eq-ok, All, All-append, append-nil, append_assoc,
  String,
}
use supryolo.Actions.{Action, and_then, succeed}
use supryolo.Hardware.Amd.{FilePath, Files, Write, Plan, want}
use supryolo.Hardware.Journal.{
  Command, file, set_power, lock_core, lock_memory, reset_core, reset_memory, set_fan, default_fan,
  Journal, Answers, issue, logged, write_all, rescue, handle, is_restore, amd_apply,
}
use supryolo.Hardware.Nvml.{
  Nvml, Setting, Resolved, amd, nvidia, at_most, milliwatts, resolve_power, resolve_fan,
}

-- The commands to NVML that keep to what it tells of the device; writes to files are not looked at here.
abbrev pub Sanctioned : Nvml → Command → Type 0
Sanctioned nvml (file w) = Unit {0}
Sanctioned nvml (set_power h mw) =
    (lo : ℕ) × (hi : ℕ) × (nvml.constraints h ≡ some (lo, hi)) × (lo ≤ mw) × (mw ≤ hi)
Sanctioned nvml (lock_core h mhz) = mhz ≤ 10000
Sanctioned nvml (lock_memory h mhz) = mhz ≤ 100000
Sanctioned nvml (reset_core h) = Unit {0}
Sanctioned nvml (reset_memory h) = Unit {0}
Sanctioned nvml (set_fan h f percent) =
    (percent ≤ 100) × ((n : ℕ) × (nvml.fans h ≡ some n) × (f < n))
Sanctioned nvml (default_fan h f) = (n : ℕ) × (nvml.fans h ≡ some n) × (f < n)

-- An outcome whose journal is one before it, and behind it commands of a kind.
module _ (P : Command → Type 0) where
  abbrev pub Behind : Journal → Journal → Type 0
  Behind j j' = (new : Journal) × (j' ≡ j ++ new) × All (λ e. P e.0) new

  pub Behind-refl : (j : Journal) → Behind j j
  Behind-refl j = ([], sym (append-nil j), tt)

  pub Behind-trans : (j j1 j2 : Journal) → Behind j j1 → Behind j1 j2 → Behind j j2
  Behind-trans j j1 j2 (new, e, ps) (new', e', ps') = (
    new ++ new',
    e' ∙ ap (λ i. i ++ new') e ∙ append_assoc j new new',
    All-append (λ e. P e.0) new new' ps ps',
  )

  -- A call that only gives such commands.
  abbrev pub Only : {A : Type 0} → Action Journal A → Type 0
  Only m = (j : Journal) → Behind j (m j).1

  pub and_then-Only :
      {A B : Type 0} (m : Action Journal A) (f : A → Action Journal B)
      → Only m
      → ((a : A) → Only (f a))
      → (j : Journal) → Behind j (and_then (m j) f).1
  and_then-Only {A = A} {B = B} m f h k j = go (m j) (h j)
    where
      go : (x : Result A × Journal) → Behind j x.1 → Behind j (and_then x f).1
      go (ok a, j1) b = Behind-trans j j1 (f a j1).1 b (k a j1)
      go (err why, j1) b = b

  module _ (answers : Answers) where
    pub logged-Only : (c : Command) → P c → (j : Journal) → Behind j (logged answers c j)
    logged-Only c p j = ((c, answers j c) ∷ [], refl, (p, tt))

    pub issue-Only : (why : String) (c : Command) → P c → Only (issue answers why c)
    issue-Only why c p j = go (answers j c) ((c, answers j c) ∷ []) (p, tt)
      where
        go :
            (b : Bool) (new : Journal)
            → All (λ e. P e.0) new
            → Behind j (succeed why (b, j ++ new)).1
        go true new ps = (new, refl, ps)
        go false new ps = (new, refl, ps)

    module _ (files_too : (w : Write) → P (file w)) where
      abbrev Third : Journal → Result (Unit {0}) × Bool × Journal → Type 0
      Third j (r, changed, j') = Behind j j'

      write_all-Only :
          (restore : Option Write) (ws : List Write) (changed : Bool) (j : Journal)
          → Third j (write_all answers restore ws changed j)
      unfolding write_all
      write_all-Only restore [] changed j = Behind-refl j
      write_all-Only restore (w ∷ ws) changed j =
          chosen (answers j (file w))
            (write_all answers restore ws (changed || is_restore restore w)
              (logged answers (file w) j))
            (err "AMD write failed", changed, logged answers (file w) j)
            (later
              (write_all answers restore ws (changed || is_restore restore w)
                (logged answers (file w) j))
              (write_all-Only restore ws (changed || is_restore restore w)
                (logged answers (file w) j)))
            (logged-Only (file w) (files_too w) j)
        where
          chosen :
              (b : Bool) (x y : Result (Unit {0}) × Bool × Journal)
              → Third j x
              → Third j y
              → Third j (if b then x else y)
          chosen true x y f g = f
          chosen false x y f g = g

          later :
              (x : Result (Unit {0}) × Bool × Journal)
              → Third (logged answers (file w) j) x
              → Third j x
          later (r, b, j') h =
              Behind-trans j (logged answers (file w) j) j' (logged-Only (file w) (files_too w) j) h

      pub amd_apply-Only : (p : Plan) → Only (amd_apply answers p)
      unfolding amd_apply rescue
      amd_apply-Only p j =
          handled p.fan_restore (write_all answers p.fan_restore p.writes false j)
            (write_all-Only p.fan_restore p.writes false j)
        where
          handled :
              (o : Option Write) (x : Result (Unit {0}) × Bool × Journal)
              → Third j x
              → Behind j (handle answers o x).1
          handled o (ok u, changed, j') h = h
          handled none (err why, changed, j') h = h
          handled (some r) (err why, false, j') h = h
          handled (some r) (err why, true, j') h =
              Behind-trans j j' (logged answers (file r) j') h
                (logged-Only (file r) (files_too r) j')

-- What the validation of a device leaves.
abbrev pub Fits : Nvml → Setting → Resolved → Type 0
Fits nvml s (amd p) = Unit {0}
Fits nvml s (nvidia h mw n) =
    (at_most s.core 10000 ≡ true)
    × (at_most s.memory 100000 ≡ true)
    × ((watts : ℕ)
        → s.watts ≡ some watts
        → (lo : ℕ) × (hi : ℕ) × (nvml.constraints h ≡ some (lo, hi)) × (lo ≤ mw) × (mw ≤ hi))
    × ((percent : ℕ) → s.fan ≡ some percent → (percent ≤ 100) × (nvml.fans h ≡ some n))

want-ok : {A : Type 0} (o : Option A) (why : String) (a : A) → want o why ≡ ok a → o ≡ some a
want-ok none why a e = cc
want-ok (some b) why a e = ap some (ok-injective e)

within : (n lo hi : ℕ) → not (ltb n lo || ltb hi n) ≡ true → (lo ≤ n) × (n ≤ hi)
within n lo hi h = ground arith

module _ (files : Files) (root : FilePath) (nvml : Nvml) where
  pub power-ok :
      (h : ℕ) (o : Option ℕ) (mw : ℕ)
      → resolve_power files root nvml h o ≡ ok mw
      → (watts : ℕ) → o ≡ some watts
      → (lo : ℕ) × (hi : ℕ) × (nvml.constraints h ≡ some (lo, hi)) × (lo ≤ mw) × (mw ≤ hi)
  unfolding resolve_power
  power-ok h none mw e watts is = cc
  power-ok h (some w) mw e watts is =
      let (range, known, e1) = >>=-eq-ok (want (nvml.constraints h) _) _ e in
      let (u, small, e2) = >>=-eq-ok (require (leb w ((2 ^ 32 - 1) / 1000)) _) _ e1 in
      let (n, asked, e3) = >>=-eq-ok (milliwatts files root nvml h w) _ e2 in
      let (u', inside, e4) = >>=-eq-ok (require (not (ltb n range.0 || ltb range.1 n)) _) _ e3 in
      let (lo, hi) = within n range.0 range.1 (require-ok _ _ inside) in
      let same : n ≡ mw = ok-injective e4 in
      (range.0, range.1, want-ok _ _ range known, omega arith, omega arith)

  pub fan-ok :
      (h : ℕ) (o : Option ℕ) (n : ℕ)
      → resolve_fan files root nvml h o ≡ ok n
      → (percent : ℕ) → o ≡ some percent
      → (percent ≤ 100) × (nvml.fans h ≡ some n)
  unfolding resolve_fan
  fan-ok h none n e percent is = cc
  fan-ok h (some p) n e percent is =
      let (u, small, e1) = >>=-eq-ok (require (leb p 100) _) _ e in
      let (k, known, e2) = >>=-eq-ok (want (nvml.fans h) _) _ e1 in
      let (u', positive, e3) = >>=-eq-ok (require (not (k == 0)) _) _ e2 in
      (
        subst (λ o. at_most o 100 ≡ true → percent ≤ 100) (sym is) (leb→le percent 100)
            (require-ok _ _ small),
        want-ok _ _ k known ∙ ap some (ok-injective e3),
      )
