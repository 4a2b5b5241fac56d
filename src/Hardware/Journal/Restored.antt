-- ===== src/Hardware/Journal/Restored.antt =====
-- The fan policy after `amd_apply`.
use supryolo.Base.{
  ℕ, ◌≡◌, refl, sym, ap, subst, ◌∙◌, arith, List, [], ◌∷◌, ◌++◌, Bool, true, false, ◌||◌, ◌⊎◌, inl,
  inr, Bool-cases, Option, none, some, if◌then◌else◌, Result, ok, err, String,
}
use supryolo.Sv2.Session.Settle.Laws.{text_eq_self}
use supryolo.Hardware.Amd.{FilePath, Write, Plan}
use supryolo.Hardware.Journal.{
  Command, file, Journal, Answers, path_eq, is_restore, logged, write_all, not_restored, rescue,
  handle, amd_apply,
}

-- A file's text after one more command, and after a journal.
abbrev pub after : FilePath → Option (List ℕ) → Command × Bool → Option (List ℕ)
after path now (file w, true) = if path_eq w.path path then some w.value else now
after path now (file w, false) = now
after path now (_, b) = now

unfoldable pub last_written : FilePath → Option (List ℕ) → Journal → Option (List ℕ)
last_written path now [] = now
last_written path now (e ∷ j) = last_written path (after path now e) j

snoc-last :
    (path : FilePath) (now : Option (List ℕ)) (j : Journal) (e : Command × Bool)
    → last_written path now (j ++ (e ∷ [])) ≡ after path (last_written path now j) e
unfolding last_written
snoc-last path now [] e = refl
snoc-last path now (d ∷ j) e = snoc-last path (after path now d) j e

path_eq_self : (p : FilePath) → path_eq p p ≡ true
unfolding path_eq
path_eq_self [] = refl
path_eq_self (s ∷ p) = ground (arith, text_eq_self s, path_eq_self p)

module _ (answers : Answers) (r : Write) where
  -- While the flag is down, the policy has not been written.
  abbrev Unchanged : Bool → Journal → Type 0
  Unchanged changed j = changed ≡ false → last_written r.path none j ≡ none

  abbrev Kept : Result (Unit {0}) × Bool × Journal → Type 0
  Kept (ok u, changed, j) = Unit {0}
  Kept (err why, changed, j) = Unchanged changed j

  failed-Unchanged :
      (w : Write) (changed : Bool) (j : Journal)
      → answers j (file w) ≡ false
      → Unchanged changed j
      → Unchanged changed (logged answers (file w) j)
  failed-Unchanged w changed j broke h down =
      snoc-last r.path none j (file w, answers j (file w))
      ∙ ap (λ b. after r.path (last_written r.path none j) (file w, b)) broke
      ∙ h down

  written-Unchanged :
      (w : Write) (changed : Bool) (j : Journal)
      → answers j (file w) ≡ true
      → Unchanged changed j
      → Unchanged (changed || is_restore (some r) w) (logged answers (file w) j)
  written-Unchanged w changed j worked h down =
      snoc-last r.path none j (file w, answers j (file w))
      ∙ ap (λ b. after r.path (last_written r.path none j) (file w, b)) worked
      ∙ ap (λ b. if b then some w.value else last_written r.path none j)
          (second changed (path_eq w.path r.path) down)
      ∙ h (first changed (path_eq w.path r.path) down)
    where
      first : (a b : Bool) → (a || b) ≡ false → a ≡ false
      first a b h = ground arith

      second : (a b : Bool) → (a || b) ≡ false → b ≡ false
      second a b h = ground arith

  write_all-Kept :
      (ws : List Write) (changed : Bool) (j : Journal)
      → Unchanged changed j
      → Kept (write_all answers (some r) ws changed j)
  unfolding write_all
  write_all-Kept [] changed j h = tt
  write_all-Kept (w ∷ ws) changed j h =
      chosen (answers j (file w))
        (write_all answers (some r) ws (changed || is_restore (some r) w)
          (logged answers (file w) j))
        (err "AMD write failed", changed, logged answers (file w) j)
        (λ worked.
          write_all-Kept ws (changed || is_restore (some r) w) (logged answers (file w) j)
            (written-Unchanged w changed j worked h))
        (λ broke. failed-Unchanged w changed j broke h)
    where
      chosen :
          (b : Bool) (x y : Result (Unit {0}) × Bool × Journal)
          → (b ≡ true → Kept x)
          → (b ≡ false → Kept y)
          → Kept (if b then x else y)
      chosen true x y f g = f refl
      chosen false x y f g = g refl

  -- How the policy's file is left: as it was, with the old policy, or with the text that says so.
  abbrev pub Restored : String → Journal → Type 0
  Restored why j =
      (last_written r.path none j ≡ none)
      ⊎ ((last_written r.path none j ≡ some r.value) ⊎ (why ≡ not_restored answers))

  rescue-Restored :
      (why : String) (changed : Bool) (j j' : Journal) (why' : String)
      → Unchanged changed j
      → rescue answers (some r) why changed j ≡ (err why', j')
      → Restored why' j'
  unfolding rescue
  rescue-Restored why false j j' why' h e =
      inl (subst (λ j. last_written r.path none j ≡ none) (ap (λ p. p.1) e) (h refl))
  rescue-Restored why true j j' why' h e = elim (Bool-cases (answers j (file r))) [
    | inl worked ↦ inr (
        inl (
          ap (λ p. last_written r.path none p.1) (sym e)
          ∙ snoc-last r.path none j (file r, answers j (file r))
          ∙ ap (λ b. after r.path (last_written r.path none j) (file r, b)) worked
          ∙ ap (λ b. if b then some r.value else last_written r.path none j) (path_eq_self r.path)))
    | inr broke ↦
        inr (inr (message (answers j (file r)) why why' (err why') broke (ap (λ p. p.0) e) refl))
  ]
    where
      message :
          (b : Bool) (why why' : String) (x : Result (Unit {0}))
          → b ≡ false
          → err (if b then why else not_restored answers) ≡ x
          → x ≡ err why'
          → why' ≡ not_restored answers
      message true why why' x h e e' = cc
      message false why why' x h e e' = cc

  handle-Restored :
      (x : Result (Unit {0}) × Bool × Journal) (why : String) (j' : Journal)
      → Kept x
      → handle answers (some r) x ≡ (err why, j')
      → Restored why j'
  handle-Restored (ok u, changed, j) why j' h e = cc
  handle-Restored (err w, changed, j) why j' h e = rescue-Restored w changed j j' why h e

-- When `amd_apply` throws for a plan that takes over the fan, whichever writes succeed and whichever
-- fail: either no write to the fan policy's file succeeded, or the last one that did wrote the policy
-- from before, or the exception's text says that the policy could not be restored.
pub apply-Restored :
    (answers : Answers) (p : Plan) (r : Write) (why : String) (j : Journal)
    → p.fan_restore ≡ some r
    → amd_apply answers p [] ≡ (err why, j)
    → (last_written r.path none j ≡ none)
      ⊎ ((last_written r.path none j ≡ some r.value) ⊎ (why ≡ not_restored answers))
unfolding amd_apply last_written
apply-Restored answers p r why j takes e =
    handle-Restored answers r (write_all answers (some r) p.writes false []) why j
      (write_all-Kept answers r p.writes false [] (λ h. refl))
      (ap (λ o. handle answers o (write_all answers o p.writes false [])) (sym takes) ∙ e)
