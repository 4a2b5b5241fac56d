-- ===== src/CommandLine/Options/InRange.antt =====
-- The ranges of the options that are accepted.
use supryolo.Base.{
  ℕ, ◌%◌, arith, ◌^◌, ◌≤◌, ◌<◌, ◌≡◌, subst, List, [], ◌∷◌, true, ◌&&◌, Option, none, some, All, all,
  length, leb, ltb, leb→le, ok, require, require-ok, ok-injective, >>=-eq-ok,
}
use supryolo.Job.Decimal.{is_digit, decimal}
use supryolo.CommandLine.{integer, numbers, integers, split}
use supryolo.CommandLine.Options.{MineOptions}

abbrev pub UpTo : ℕ → ℕ → Type 0
UpTo maximum n = n ≤ maximum

abbrev pub OptionUpTo : ℕ → Option ℕ → Type 0
OptionUpTo maximum none = Unit {0}
OptionUpTo maximum (some n) = n ≤ maximum

-- What the options may be, one after another.
abbrev pub InRange : MineOptions → Type 0
InRange o =
    (o.selection.cpu_threads ≤ 128)
    × All (UpTo 255) o.selection.devices
    × (o.block ≤ 1024)
    × (o.variant ≤ 6)
    × OptionUpTo 3 o.opencl_variant
    × ((0 < o.batch) × (o.batch ≤ 2 ^ 28))
    × ((0 < o.cpu_batch) × (o.cpu_batch ≤ 2 ^ 20))
    × (o.api_port ≤ 65535)
    × (o.warn_temperature ≤ 120)
    × (o.alarm_temperature ≤ 120)
    × All (UpTo 10000) o.controls.core_mhz
    × All (UpTo 100000) o.controls.memory_mhz
    × All (UpTo 2000) o.controls.power_watts
    × All (UpTo 100) o.controls.fan_percent

pub integer-UpTo : (s : List ℕ) (maximum n : ℕ) → integer s maximum ≡ ok n → UpTo maximum n
unfolding integer
integer-UpTo s maximum n e =
    let (u, digits, e1) = >>=-eq-ok (require (ltb 0 (length s) && all is_digit s) _) _ e in
    let (u', fits, e2) = >>=-eq-ok (require (ltb (decimal s 0) (2 ^ 64)) _) _ e1 in
    let (u'', small, e3) = >>=-eq-ok (require (leb (decimal s 0) maximum) _) _ e2 in
    subst (UpTo maximum) (ok-injective e3) (leb→le (decimal s 0) maximum (require-ok _ _ small))

integers-UpTo :
    (fs : List (List ℕ)) (maximum : ℕ) (ns : List ℕ)
    → integers fs maximum ≡ ok ns
    → All (UpTo maximum) ns
unfolding integers
integers-UpTo [] maximum ns e = subst (All (UpTo maximum)) (ok-injective e) tt
integers-UpTo (f ∷ fs) maximum ns e =
    let (n, first, e1) = >>=-eq-ok (integer f maximum) _ e in
    let (rest, others, e2) = >>=-eq-ok (integers fs maximum) _ e1 in
    subst (All (UpTo maximum)) (ok-injective e2)
      (narrowed n (integer-UpTo f maximum n first), integers-UpTo fs maximum rest others)
  where
    narrowed : (n : ℕ) → n ≤ maximum → n % 2 ^ 32 ≤ maximum
    narrowed n h = omega arith

All-UpTo : (a b : ℕ) (ns : List ℕ) → a ≤ b → All (UpTo a) ns → All (UpTo b) ns
All-UpTo a b [] h all = tt
All-UpTo a b (n ∷ ns) h (first, rest) = (omega arith, All-UpTo a b ns h rest)

pub numbers-UpTo :
    (s : List ℕ) (maximum : ℕ) (ns : List ℕ) → numbers s maximum ≡ ok ns → All (UpTo maximum) ns
unfolding numbers
numbers-UpTo s maximum ns e =
    All-UpTo (maximum % 2 ^ 32) maximum ns (omega arith)
      (integers-UpTo (split s) (maximum % 2 ^ 32) ns e)

pub with_threads :
    (o : MineOptions) (n : ℕ)
    → n ≤ 128
    → InRange o
    → InRange (record o { selection = record o.selection { cpu_threads = n } })
with_threads o n h (th, de, bl, va, oc, ba, cb, po, wa, al, co, me, pw, fa) =
    (h, de, bl, va, oc, ba, cb, po, wa, al, co, me, pw, fa)

pub with_devices :
    (o : MineOptions) (n : List ℕ)
    → All (UpTo 255) n
    → InRange o
    → InRange (record o { selection = record o.selection { devices = n; devices_explicit = true } })
with_devices o n h (th, de, bl, va, oc, ba, cb, po, wa, al, co, me, pw, fa) =
    (th, h, bl, va, oc, ba, cb, po, wa, al, co, me, pw, fa)

pub with_block : (o : MineOptions) (n : ℕ) → n ≤ 1024 → InRange o → InRange (record o { block = n })
with_block o n h (th, de, bl, va, oc, ba, cb, po, wa, al, co, me, pw, fa) =
    (th, de, h, va, oc, ba, cb, po, wa, al, co, me, pw, fa)

pub with_variant :
    (o : MineOptions) (n : ℕ) → n ≤ 6 → InRange o → InRange (record o { variant = n })
with_variant o n h (th, de, bl, va, oc, ba, cb, po, wa, al, co, me, pw, fa) =
    (th, de, bl, h, oc, ba, cb, po, wa, al, co, me, pw, fa)

pub with_opencl :
    (o : MineOptions) (n : ℕ) → n ≤ 3 → InRange o → InRange (record o { opencl_variant = some n })
with_opencl o n h (th, de, bl, va, oc, ba, cb, po, wa, al, co, me, pw, fa) =
    (th, de, bl, va, h, ba, cb, po, wa, al, co, me, pw, fa)

pub with_batch :
    (o : MineOptions) (n : ℕ)
    → (0 < n) × (n ≤ 2 ^ 28)
    → InRange o
    → InRange (record o { batch = n })
with_batch o n h (th, de, bl, va, oc, ba, cb, po, wa, al, co, me, pw, fa) =
    (th, de, bl, va, oc, h, cb, po, wa, al, co, me, pw, fa)

pub with_cpu_batch :
    (o : MineOptions) (n : ℕ)
    → (0 < n) × (n ≤ 2 ^ 20)
    → InRange o
    → InRange (record o { cpu_batch = n })
with_cpu_batch o n h (th, de, bl, va, oc, ba, cb, po, wa, al, co, me, pw, fa) =
    (th, de, bl, va, oc, ba, h, po, wa, al, co, me, pw, fa)

pub with_port :
    (o : MineOptions) (n : ℕ) → n ≤ 65535 → InRange o → InRange (record o { api_port = n })
with_port o n h (th, de, bl, va, oc, ba, cb, po, wa, al, co, me, pw, fa) =
    (th, de, bl, va, oc, ba, cb, h, wa, al, co, me, pw, fa)

pub with_warn :
    (o : MineOptions) (n : ℕ) → n ≤ 120 → InRange o → InRange (record o { warn_temperature = n })
with_warn o n h (th, de, bl, va, oc, ba, cb, po, wa, al, co, me, pw, fa) =
    (th, de, bl, va, oc, ba, cb, po, h, al, co, me, pw, fa)

pub with_alarm :
    (o : MineOptions) (n : ℕ) → n ≤ 120 → InRange o → InRange (record o { alarm_temperature = n })
with_alarm o n h (th, de, bl, va, oc, ba, cb, po, wa, al, co, me, pw, fa) =
    (th, de, bl, va, oc, ba, cb, po, wa, h, co, me, pw, fa)

pub with_core :
    (o : MineOptions) (n : List ℕ)
    → All (UpTo 10000) n
    → InRange o
    → InRange (record o { controls = record o.controls { core_mhz = n } })
with_core o n h (th, de, bl, va, oc, ba, cb, po, wa, al, co, me, pw, fa) =
    (th, de, bl, va, oc, ba, cb, po, wa, al, h, me, pw, fa)

pub with_memory :
    (o : MineOptions) (n : List ℕ)
    → All (UpTo 100000) n
    → InRange o
    → InRange (record o { controls = record o.controls { memory_mhz = n } })
with_memory o n h (th, de, bl, va, oc, ba, cb, po, wa, al, co, me, pw, fa) =
    (th, de, bl, va, oc, ba, cb, po, wa, al, co, h, pw, fa)

pub with_power :
    (o : MineOptions) (n : List ℕ)
    → All (UpTo 2000) n
    → InRange o
    → InRange (record o { controls = record o.controls { power_watts = n } })
with_power o n h (th, de, bl, va, oc, ba, cb, po, wa, al, co, me, pw, fa) =
    (th, de, bl, va, oc, ba, cb, po, wa, al, co, me, h, fa)

pub with_fan :
    (o : MineOptions) (n : List ℕ)
    → All (UpTo 100) n
    → InRange o
    → InRange (record o { controls = record o.controls { fan_percent = n } })
with_fan o n h (th, de, bl, va, oc, ba, cb, po, wa, al, co, me, pw, fa) =
    (th, de, bl, va, oc, ba, cb, po, wa, al, co, me, pw, h)
