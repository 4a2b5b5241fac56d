-- ===== src/Hardware/Amd.antt =====
-- src/hardware/amd.cpp and include/yolo/amd.hpp: `amd_control_plan`. The files below sysfs are an argument.
pub mod Control
pub mod Levels
pub mod Limits
use supryolo.Base.{
  ℕ, zero, suc, ◌+◌, ◌-◌, ◌*◌, ◌/◌, ◌%◌, ◌^◌, List, [], ◌∷◌, ◌++◌, Bool, true, false, not, ◌&&◌,
  ◌||◌, Option, none, some, leb, ltb, ◌==◌, if◌then◌else◌, Result, ok, err, ◌>>=◌, ◌>>◌, require,
  String,
}
use supryolo.Base.Bytes.{codes}
use supryolo.Job.{to_string}
use supryolo.Sv2.Session.Settle.{text_eq}
use supryolo.Miner.Select.{GpuInfo}
use supryolo.Hardware.Text.{skip_spaces, read_number, first_word, lines, fits, pci_pattern}

-- A path as its parts, the last one first.
abbrev pub FilePath : Type 0
FilePath = List (List ℕ)

infixl 40 ◌//◌
abbrev pub ◌//◌ : FilePath → String → FilePath
p // name = codes name ∷ p

-- A file's text, which is `none` when it cannot be opened; which files exist; what a directory lists.
pub record Files : Type 0 where
  pub text : FilePath → Option (List ℕ)
  pub exists : FilePath → Bool
  pub entries : FilePath → List FilePath

pub record Write : Type 0 where
  pub path : FilePath
  pub value : List ℕ

pub record Plan : Type 0 where
  pub writes : List Write
  pub events : List (List ℕ)
  pub fan_restore : Option Write

abbrev pub empty_plan : Plan
empty_plan = record { writes = []; events = []; fan_restore = none }

-- A failed open leaves nothing to read.
abbrev pub contents : Option (List ℕ) → List ℕ
contents none = []
contents (some s) = s

abbrev pub value_of : Option (ℕ × List ℕ) → Option ℕ
value_of none = none
value_of (some (n, rest)) = some n

module _ (files : Files) where
  -- The function `number`.
  unfoldable pub number : FilePath → Option ℕ
  number p = value_of (read_number 64 (contents (files.text p)))

  abbrev pub word : FilePath → List ℕ
  word p = first_word (contents (files.text p))

  -- The first directory that the amdgpu driver made; without one, the path is empty.
  unfoldable pub find_hwmon : List FilePath → FilePath
  find_hwmon [] = []
  find_hwmon (p ∷ ps) =
      let rest = find_hwmon ps in if text_eq (word (p // "name")) (codes "amdgpu") then p else rest

  unfoldable pub add : FilePath → List ℕ → Plan → Result Plan
  add file value p =
      if files.exists file
      then ok (record p { writes = p.writes ++ (record { path = file; value = value } ∷ []) })
      else err "AMD driver does not expose a file"

abbrev pub note : List ℕ → Plan → Plan
note event p = record p { events = p.events ++ (event ∷ []) }

abbrev pub is_missing : FilePath → Bool
is_missing [] = true
is_missing (x ∷ p) = false

abbrev pub want : {A : Type 0} → Option A → String → Result A
want none why = err why
want (some a) why = ok a

-- The line `index: value` of a table of clocks.
abbrev pub second : Option (ℕ × List ℕ) → Option ℕ
second none = none
second (some (value, rest)) = some value

abbrev pub colon_value : List ℕ → Option ℕ
colon_value [] = none
colon_value (c ∷ s) = if c == b':' then second (read_number 32 s) else none

abbrev pub entry : Option (ℕ × List ℕ) → Option (ℕ × Option ℕ)
entry none = none
entry (some (index, rest)) = some (index, colon_value (skip_spaces rest))

abbrev pub is_entry : ℕ → Option (ℕ × Option ℕ) → Option ℕ
is_entry mhz none = none
is_entry mhz (some (index, none)) = none
is_entry mhz (some (index, some value)) = if value == mhz then some index else none

-- The loop over the lines.
unfoldable pub find_level : ℕ → List (List ℕ) → Result (List ℕ)
find_level mhz [] = err "AMD clock must match a driver-advertised MHz level"
find_level mhz (l ∷ ls) =
    let rest = find_level mhz ls in
    elim (is_entry mhz (entry (read_number 32 l))) [
      | none ↦ rest
      | some index ↦ ok (to_string index)
    ]
