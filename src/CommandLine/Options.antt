-- ===== src/CommandLine/Options.antt =====
-- src/main.cpp: the loop over the arguments, the checks behind it, and what `main` then does.
-- include/yolo/stratum.hpp: `MineOptions`. `std::stod` is an argument.
pub mod InRange
pub mod Kept
pub mod Accepted
use supryolo.Base.{
  ℕ, ◌+◌, ◌-◌, ◌*◌, ◌/◌, ◌^◌, max, List, [], ◌∷◌, Bool, true, false, not, ◌&&◌, ◌||◌, Option, none,
  some, length, leb, ltb, ◌==◌, if◌then◌else◌, Result, ok, err, ◌>>=◌, ◌>>◌, require, String,
}
use supryolo.Base.Bytes.{codes}
use supryolo.CommandLine.{integer, numbers}
use supryolo.Miner.Select.{GpuInfo, Options, find_all}
use supryolo.Sv2.Session.Settle.{text_eq, insert}
use supryolo.Hardware.Nvml.{GpuControls, requested}

-- The members that the selection of devices reads are a record of their own. A `double` is its 64 bits, an
-- `opencl_variant` of -1 is `none`.
pub record MineOptions : Type 0 where
  pub selection : Options
  pub sv2_authority : List ℕ
  pub log_file : List ℕ
  pub url : List ℕ
  pub password : List ℕ
  pub tui : List ℕ
  pub cpu_variant : List ℕ
  pub gpu_mode : List ℕ
  pub api_port : ℕ
  pub block : ℕ
  pub variant : ℕ
  pub opencl_variant : Option ℕ
  pub batch : ℕ
  pub cpu_batch : ℕ
  pub seconds : ℕ
  pub warn_temperature : ℕ
  pub alarm_temperature : ℕ
  pub controls : GpuControls

abbrev pub defaults : MineOptions
defaults = record {
  selection = record {
    user = [];
    devices = [];
    devices_explicit = false;
    no_cpu = false;
    no_gpu = false;
    cpu_threads = 0;
  };
  sv2_authority = [];
  log_file = [];
  url = [];
  password = codes "x";
  tui = codes "auto";
  cpu_variant = codes "auto";
  gpu_mode = codes "auto";
  api_port = 0;
  block = 0;
  variant = 3;
  opencl_variant = none;
  batch = 2 ^ 26;
  cpu_batch = 16384;
  seconds = 0;
  warn_temperature = 75;
  alarm_temperature = 85;
  controls = record { core_mhz = []; memory_mhz = []; power_watts = []; fan_percent = [] };
}

-- The options with the local variables of `main`.
pub record Parsed : Type 0 where
  pub options : MineOptions
  pub bench : Bool
  pub seconds_set : Bool
  pub list : Bool
  pub demo : Bool
  pub help : Bool

abbrev pub nothing_parsed : Parsed
nothing_parsed = record {
  options = defaults;
  bench = false;
  seconds_set = false;
  list = false;
  demo = false;
  help = false;
}

abbrev pub change : (MineOptions → MineOptions) → Parsed → Parsed
change f p = record p { options = f p.options }

abbrev pub select : (Options → Options) → Parsed → Parsed
select f p = change (λ o. record o { selection = f o.selection }) p

abbrev pub control : (GpuControls → GpuControls) → Parsed → Parsed
control f p = change (λ o. record o { controls = f o.controls }) p

-- What an argument does: alone, with the one behind it, or by ending the program.
pub data Kind : Type 0 where
  flag : (Parsed → Parsed) → Kind
  setting : (List ℕ → Parsed → Result Parsed) → Kind
  version unknown : Kind

abbrev pub text : (List ℕ → MineOptions → MineOptions) → Kind
text f = setting (λ v p. ok (change (f v) p))

abbrev pub number : ℕ → (ℕ → MineOptions → MineOptions) → Kind
number maximum f = setting (λ v p. integer v maximum >>= (λ n. ok (change (f n) p)))

abbrev pub positive : ℕ → String → (ℕ → MineOptions → MineOptions) → Kind
positive maximum why f =
    setting (λ v p. integer v maximum >>= (λ n. if n == 0 then err why else ok (change (f n) p)))

abbrev pub values : ℕ → (List ℕ → GpuControls → GpuControls) → Kind
values maximum f = setting (λ v p. numbers v maximum >>= (λ ns. ok (control (f ns) p)))

-- `std::set`.
unfoldable pub to_set : List ℕ → List ℕ
to_set [] = []
to_set (d ∷ ds) = let rest = to_set ds in insert d rest

unfoldable pub set_devices : List ℕ → Parsed → Result Parsed
set_devices v p = do
  ds ← numbers v 255
  require (length (to_set ds) == length ds) "duplicate GPU device"
  ok (select (λ o. record o { devices = ds; devices_explicit = true }) p)

-- What `std::stod` read, with the number of characters; finite and above 0.
unfoldable pub accept_seconds : List ℕ → Parsed → Option (ℕ × ℕ) → Result Parsed
accept_seconds v p none = err "stod"
accept_seconds v p (some (x, used)) =
    if used == length v && (not (x == 0) && ltb x 0x7ff0_0000_0000_0000)
    then ok (record (change (λ o. record o { seconds = x }) p) { seconds_set = true })
    else err "seconds must be positive and finite"

unfoldable pub set_seconds : (List ℕ → Option (ℕ × ℕ)) → List ℕ → Parsed → Result Parsed
set_seconds stod v p = accept_seconds v p (stod v)

-- The chain of tests, in its order.
abbrev pub table : (List ℕ → Option (ℕ × ℕ)) → List (List ℕ × Kind)
table stod =
    (codes "--benchmark", flag (λ p. record p { bench = true }))
    ∷ (codes "--gpu-device", setting set_devices)
    ∷ (codes "-d", setting set_devices)
    ∷ (codes "--gpu-backend", text (λ v o. record o { gpu_mode = v }))
    ∷ (codes "--no-cpu", flag (select (λ o. record o { no_cpu = true })))
    ∷ (codes "--no-gpu", flag (select (λ o. record o { no_gpu = true })))
    ∷ (codes "--cpu", flag (select (λ o. record o { no_gpu = true })))
    ∷ (codes "--cpu-variant", text (λ v o. record o { cpu_variant = v }))
    ∷ (
      codes "--cpu-threads",
      number 128 (λ n o. record o { selection = record o.selection { cpu_threads = n } }),
    )
    ∷ (codes "--block", number 1024 (λ n o. record o { block = n }))
    ∷ (codes "--opencl-variant", number 3 (λ n o. record o { opencl_variant = some n }))
    ∷ (codes "--variant", number 6 (λ n o. record o { variant = n }))
    ∷ (codes "--batch", positive (2 ^ 28) "batch must be positive" (λ n o. record o { batch = n }))
    ∷ (
      codes "--cpu-batch",
      positive (2 ^ 20) "CPU batch must be positive" (λ n o. record o { cpu_batch = n }),
    )
    ∷ (codes "--seconds", setting (set_seconds stod))
    ∷ (codes "--sv2-authority", text (λ v o. record o { sv2_authority = v }))
    ∷ (codes "--url", text (λ v o. record o { url = v }))
    ∷ (codes "--user", text (λ v o. record o { selection = record o.selection { user = v } }))
    ∷ (codes "--log-file", text (λ v o. record o { log_file = v }))
    ∷ (codes "--api-port", number 65535 (λ n o. record o { api_port = n }))
    ∷ (codes "--password", text (λ v o. record o { password = v }))
    ∷ (codes "--gpu-core-clock", values 10000 (λ ns c. record c { core_mhz = ns }))
    ∷ (codes "--gpu-mem-clock", values 100000 (λ ns c. record c { memory_mhz = ns }))
    ∷ (codes "--powerlimit", values 2000 (λ ns c. record c { power_watts = ns }))
    ∷ (codes "--gpu-fan-speed", values 100 (λ ns c. record c { fan_percent = ns }))
    ∷ (codes "--gpu-temp-warn", number 120 (λ n o. record o { warn_temperature = n }))
    ∷ (codes "--gpu-temp-alarm", number 120 (λ n o. record o { alarm_temperature = n }))
    ∷ (codes "--tui", flag (change (λ o. record o { tui = codes "on" })))
    ∷ (codes "--no-tui", flag (change (λ o. record o { tui = codes "off" })))
    ∷ (codes "--list-devices", flag (λ p. record p { list = true }))
    ∷ (codes "--tui-demo", flag (λ p. record p { demo = true }))
    ∷ (codes "--version", version)
    ∷ (codes "--help", flag (λ p. record p { help = true }))
    ∷ (codes "-h", flag (λ p. record p { help = true }))
    ∷ []

unfoldable pub find_kind : List ℕ → List (List ℕ × Kind) → Kind
find_kind a [] = unknown
find_kind a ((name, k) ∷ rest) = let other = find_kind a rest in if text_eq a name then k else other

-- Options, or the end of the program, which has printed what was asked for.
pub data Outcome : Type 0 where
  stopped : Outcome
  parsed : Parsed → Outcome

-- An argument without, and one with another behind it; `next` and `later` go on behind the one and the other.
unfoldable pub apply_last : Kind → Parsed → Result Outcome
apply_last (flag f) p = ok (parsed (f p))
apply_last (setting f) p = err "missing value"
apply_last version p = ok stopped
apply_last unknown p = err "unknown argument"

unfoldable pub apply_kind :
    (Parsed → Result Outcome) → (Parsed → Result Outcome) → Kind → List ℕ → Parsed → Result Outcome
apply_kind next later (flag f) v p = next (f p)
apply_kind next later (setting f) v p = f v p >>= later
apply_kind next later version v p = ok stopped
apply_kind next later unknown v p = err "unknown argument"

-- The loop.
unfoldable pub parse : (List ℕ → Option (ℕ × ℕ)) → List (List ℕ) → Parsed → Result Outcome
parse stod [] p = ok (parsed p)
parse stod (a ∷ []) p = apply_last (find_kind a (table stod)) p
parse stod (a ∷ (v ∷ rest)) p =
    apply_kind (parse stod (v ∷ rest)) (parse stod rest) (find_kind a (table stod)) v p

abbrev pub is_empty : List ℕ → Bool
is_empty [] = true
is_empty (c ∷ s) = false

abbrev pub at_most_one : Bool → Bool → Bool → Bool
at_most_one a b c = not ((a && b) || ((a && c) || (b && c)))

-- The checks behind the loop.
unfoldable pub check : Parsed → Result Outcome
check p = do
  require
      (text_eq p.options.cpu_variant (codes "auto")
        || (text_eq p.options.cpu_variant (codes "scalar")
            || text_eq p.options.cpu_variant (codes "avx2")))
      "CPU variant must be auto, scalar or avx2"
  require (at_most_one p.bench p.demo p.list) "choose one inspection/benchmark mode"
  require (not (p.list && requested p.options.controls))
      "--list-devices cannot apply hardware settings"
  require
      (ltb p.options.warn_temperature p.options.alarm_temperature
        && not (p.options.warn_temperature == 0))
      "temperature thresholds require 0 < warn < alarm"
  require (not ((p.bench || (p.demo || p.list)) && not (is_empty p.options.url)))
      "inspection/benchmark mode cannot be combined with --url"
  ok (parsed p)

abbrev pub no_arguments : List (List ℕ) → Bool
no_arguments [] = true
no_arguments (a ∷ rest) = false

-- With `--help`, and without arguments, the usage is all.
unfoldable pub checked : List (List ℕ) → Outcome → Result Outcome
checked args stopped = ok stopped
checked args (parsed p) =
    let rest = check p in if p.help || no_arguments args then ok stopped else rest

unfoldable pub arguments : (List ℕ → Option (ℕ × ℕ)) → List (List ℕ) → Result Outcome
arguments stod args = parse stod args nothing_parsed >>= checked args

-- What the program does then; without anything to do it prints the usage and returns 1.
pub data Mode : Type 0 where
  run_demo run_list run_miner run_benchmark print_usage : Mode

unfoldable pub mode : Parsed → Result Mode
mode p =
    if p.demo
    then (if requested p.options.controls
        then err "demo cannot apply hardware settings"
        else ok run_demo)
    else if p.list
    then ok run_list
    else if p.options.selection.no_cpu && p.options.selection.no_gpu
    then err "No mining devices enabled (--no-cpu and --no-gpu)"
    else if p.options.selection.no_gpu && p.options.selection.devices_explicit
    then err "--gpu-device conflicts with --no-gpu"
    else if not (is_empty p.options.url)
    then ok run_miner
    else if p.bench
    then ok run_benchmark
    else ok print_usage

-- The GPUs and the CPU threads of a benchmark, for what the drivers list and this many processors.
unfoldable pub bench_gpus : Options → List GpuInfo → Result (List GpuInfo)
bench_gpus o listed =
    let available = if o.no_gpu then [] else listed in
    let explicit = find_all o.devices available in
    if o.devices_explicit then explicit else ok available

unfoldable pub bench_threads : Options → ℕ → ℕ
bench_threads o logical =
    if o.no_cpu then 0 else if o.cpu_threads == 0 then max 1 (logical / 2) else o.cpu_threads

unfoldable pub bench_devices : Options → List GpuInfo → ℕ → Result (List GpuInfo × ℕ)
bench_devices o listed logical = do
  selected ← bench_gpus o listed
  require (not (length selected == 0 && bench_threads o logical == 0))
      "No enabled devices available"
  ok (selected, bench_threads o logical)
