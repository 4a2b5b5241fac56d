-- ===== src/Hardware/Journal.antt =====
-- What is written to the devices, in order and with whether it succeeded, as a journal. Whether a command
-- succeeds is an argument, and may depend on all that was done before. src/hardware/amd.cpp: `amd_apply`.
pub mod Restored
use supryolo.Base.{
  ℕ, List, [], ◌∷◌, ◌++◌, Bool, true, false, ◌&&◌, ◌||◌, Option, none, some, ◌==◌, if◌then◌else◌,
  Result, ok, err, String,
}
use supryolo.Sv2.Session.Settle.{text_eq}
use supryolo.Actions.{Action, succeed}
use supryolo.Hardware.Amd.{FilePath, Write, Plan}

-- A write to a file, and the NVML functions that change a device: its handle comes first.
pub data Command : Type 0 where
  file : Write → Command
  set_power lock_core lock_memory : ℕ → ℕ → Command
  reset_core reset_memory : ℕ → Command
  set_fan : ℕ → ℕ → ℕ → Command
  default_fan : ℕ → ℕ → Command

abbrev pub Journal : Type 0
Journal = List (Command × Bool)

abbrev pub Answers : Type 0
Answers = Journal → Command → Bool

unfoldable pub path_eq : FilePath → FilePath → Bool
path_eq [] [] = true
path_eq [] (y ∷ ys) = false
path_eq (x ∷ xs) [] = false
path_eq (x ∷ xs) (y ∷ ys) = text_eq x y && path_eq xs ys

abbrev pub is_restore : Option Write → Write → Bool
is_restore none w = false
is_restore (some r) w = path_eq w.path r.path

module _ (answers : Answers) where
  abbrev pub logged : Command → Journal → Journal
  logged c j = j ++ ((c, answers j c) ∷ [])

  abbrev pub issue : String → Command → Action Journal (Unit {0})
  issue why c j = succeed why (answers j c, logged c j)

  -- The loop over the writes, with `fan_changed`.
  unfoldable pub write_all :
      Option Write → List Write → Bool → Journal → Result (Unit {0}) × Bool × Journal
  write_all restore [] changed j = (ok tt, changed, j)
  write_all restore (w ∷ ws) changed j =
      let rest = write_all restore ws (changed || is_restore restore w) (logged (file w) j) in
      if answers j (file w) then rest else (err "AMD write failed", changed, logged (file w) j)

  abbrev pub not_restored : String
  not_restored = "AMD write failed; previous fan policy could not be restored"

  -- The handler of the exception.
  unfoldable pub rescue : Option Write → String → Bool → Action Journal (Unit {0})
  rescue none why changed j = (err why, j)
  rescue (some r) why false j = (err why, j)
  rescue (some r) why true j =
      (err (if answers j (file r) then why else not_restored), logged (file r) j)

  abbrev pub handle :
      Option Write → Result (Unit {0}) × Bool × Journal → Result (Unit {0}) × Journal
  handle restore (ok u, changed, j) = (ok u, j)
  handle restore (err why, changed, j) = rescue restore why changed j

  unfoldable pub amd_apply : Plan → Action Journal (Unit {0})
  amd_apply p j = handle p.fan_restore (write_all p.fan_restore p.writes false j)
