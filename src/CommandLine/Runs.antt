-- ===== src/CommandLine/Runs.antt =====
-- Concrete option values, and the theorem at concrete inputs.
use supryolo.Base.{
  ℕ, ◌<◌, ◌≡◌, refl, arith, List, [], ◌∷◌, true, Option, none, some, ok, err, if◌then◌else◌,
}
use supryolo.Base.Bytes.{codes}
use supryolo.Job.Decimal.{decimal}
use supryolo.CommandLine.{integer, split, integers, numbers}
use supryolo.Sv2.Session.Settle.{text_eq, insert}
use supryolo.Hardware.Nvml.{requested}
use supryolo.CommandLine.Options.{
  Parsed, nothing_parsed, parsed, arguments, parse, apply_kind, apply_last, find_kind, set_devices,
  set_seconds, accept_seconds, to_set, check, checked, mode, run_benchmark,
}
use supryolo.CommandLine.Options.InRange.{InRange}
use supryolo.CommandLine.Options.Kept.{Duration}
use supryolo.CommandLine.Options.Accepted.{arguments-InRange}
use supryolo.CommandLine.Numbers.{join, numbers-join}

numbers_too_large : numbers (codes "7,300") 255 ≡ err "integer out of range"
unfolding numbers integers integer split decimal
numbers_too_large = refl

numbers_empty_field : numbers (codes "7,") 255 ≡ err "expected nonnegative integer"
unfolding numbers integers integer split decimal
numbers_empty_field = refl

numbers-join_example : numbers (join 7 (0 ∷ 255 ∷ [])) 255 ≡ ok (7 ∷ 0 ∷ 255 ∷ [])
numbers-join_example = numbers-join 7 (0 ∷ 255 ∷ []) 255 (omega arith) (omega arith)

-- A reader of doubles that knows the text "2" alone.
two : List ℕ → Option (ℕ × ℕ)
two s = if text_eq s (codes "2") then some (0x4000_0000_0000_0000, 1) else none

abbrev tuned : List (List ℕ)
tuned =
    codes "--benchmark"
    ∷ codes "--cpu-threads"
    ∷ codes "4"
    ∷ codes "-d"
    ∷ codes "2,0"
    ∷ codes "--gpu-temp-warn"
    ∷ codes "70"
    ∷ codes "--seconds"
    ∷ codes "2"
    ∷ []

abbrev tuned_options : Parsed
tuned_options = record nothing_parsed {
  options = record nothing_parsed.options {
    selection = record nothing_parsed.options.selection {
      cpu_threads = 4;
      devices = 2 ∷ 0 ∷ [];
      devices_explicit = true;
    };
    warn_temperature = 70;
    seconds = 0x4000_0000_0000_0000;
  };
  seconds_set = true;
  bench = true;
}

tuned_parsed : arguments two tuned ≡ ok (parsed tuned_options)
unfolding arguments parse apply_kind apply_last find_kind set_devices set_seconds accept_seconds two
    to_set insert check checked requested text_eq numbers integers integer split decimal
tuned_parsed = refl

same_device_twice : arguments two (codes "-d" ∷ codes "1,1" ∷ []) ≡ err "duplicate GPU device"
unfolding arguments parse apply_kind apply_last find_kind set_devices set_seconds accept_seconds two
    to_set insert check checked requested text_eq numbers integers integer split decimal
same_device_twice = refl

tuned_mode : mode tuned_options ≡ ok run_benchmark
unfolding mode
tuned_mode = refl

arguments-InRange_example :
    InRange tuned_options.options
    × Duration tuned_options
    × (0 < tuned_options.options.warn_temperature)
    × (tuned_options.options.warn_temperature < tuned_options.options.alarm_temperature)
arguments-InRange_example = arguments-InRange two tuned tuned_options tuned_parsed
