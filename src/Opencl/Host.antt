-- ===== src/Opencl/Host.antt =====
-- src/opencl/runtime.cpp: the calls that `OpenCl::scan` and `OpenCl::hashes` make. The OpenCL library with
-- its device is an argument: what each call does to its own state. The clock is left out.
use supryolo.Base.{
  ℕ, ◌+◌, ◌-◌, ◌*◌, ◌/◌, List, Bool, not, ◌||◌, Option, leb, ltb, ◌==◌, if◌then◌else◌, Result,
  require,
}
use supryolo.Work.{Work}
use supryolo.Cpu.{Scan}
use supryolo.Actions.{Action, pure, throw, lift, answer, succeed, and_then, ◌>>=◌, ◌>>◌}
use supryolo.Opencl.Candidates.{high, words_from, validated}
use supryolo.Opencl.Prepare.{prepared}

pub data Kernel : Type 0 where
  scanner diagnostic : Kernel

-- A kernel's argument: a number, or one of the buffers.
pub data Argument : Type 0 where
  number : ℕ → Argument
  input_buffer hits_buffer nonces_buffer : Argument
  buffer : ℕ → Argument

-- `clEnqueueWriteBuffer` to `input` and to `hits`, `clSetKernelArg`, `clEnqueueNDRangeKernel` with the
-- global and the local size, `clEnqueueReadBuffer` from `hits` and from `nonces`; and, for the hashes,
-- `clCreateBuffer`, `clEnqueueReadBuffer` and `clReleaseMemObject`.
pub record Library (S : Type 0) : Type 0 where
  pub write_input : List ℕ → S → Bool × S
  pub write_hits : ℕ → S → Bool × S
  pub set_argument : Kernel → ℕ → Argument → S → Bool × S
  pub enqueue : Kernel → ℕ → ℕ → S → Bool × S
  pub read_hits : S → Option ℕ × S
  pub read_nonces : ℕ → S → Option (ℕ → ℕ) × S
  pub create_buffer : ℕ → S → Option ℕ × S
  pub read_hashes : ℕ → ℕ → S → Option (List (List ℕ)) × S
  pub release : ℕ → S → S

module _ {S : Type 0} (library : Library S) where
  unfoldable pub arg : Kernel → ℕ → Argument → Action S (Unit {0})
  arg k n value s = succeed "kernel argument" (library.set_argument k n value s)

  unfoldable pub prepare : Kernel → List ℕ → ℕ → ℕ → Action S (Unit {0})
  prepare k h start count = do
    (λ s. succeed "header upload" (library.write_input (prepared h) s))
    arg k 0 input_buffer
    arg k 1 (number start)
    arg k 2 (number count)

  -- `block` is the work group's size.
  unfoldable pub launch : ℕ → Kernel → ℕ → Action S (Unit {0})
  launch block k count s =
      succeed "kernel launch" (library.enqueue k ((count + block - 1) / block * block) block s)

  -- `if (n)`: an empty vector is not read.
  unfoldable pub read_candidates : ℕ → Action S (List ℕ)
  read_candidates n s =
      if n == 0
      then pure (words_from 0 0 (λ i. 0)) s
      else and_then (answer "read candidates" (library.read_nonces n s))
          (λ memory. pure (words_from n 0 memory))

  unfoldable pub candidates : ℕ → Work → ℕ → ℕ → Action S (List ℕ)
  candidates block w start count = do
    prepare scanner w.header start count
    arg scanner 3 (number (high w.target))
    arg scanner 4 hits_buffer
    arg scanner 5 nonces_buffer
    (λ s. succeed "reset hits" (library.write_hits 0 s))
    launch block scanner count
    n ← λ s. answer "read hits" (library.read_hits s)
    lift (
        require (leb n 4096)
          "OpenCL candidate buffer overflow; reduce batch or increase difficulty")
    read_candidates n

  unfoldable pub scan : ℕ → Work → ℕ → ℕ → Action S Scan
  scan block w start count s =
      if count == 0 || ltb (0xffff_ffff_ffff_ffff - (count - 1)) start
      then throw "nonce range overflow" s
      else and_then (candidates block w start count s)
          (λ found. lift (validated w start count found))

  -- The body of `try`.
  unfoldable pub diagnose : ℕ → List ℕ → ℕ → ℕ → ℕ → Action S (List (List ℕ))
  diagnose block h start count b = do
    prepare diagnostic h start count
    arg diagnostic 3 (buffer b)
    launch block diagnostic count
    (λ s. answer "hash readback" (library.read_hashes b (count * 32) s))

  -- Both after the body returned and after it threw.
  abbrev released : {A : Type 0} → ℕ → Result A × S → Result A × S
  released b (r, s) = (r, library.release b s)

  unfoldable pub hashes : ℕ → List ℕ → ℕ → ℕ → Action S (List (List ℕ))
  hashes block h start count = do
    lift (
        require
          (not (count == 0 || (ltb 65536 count || ltb (0xffff_ffff_ffff_ffff - (count - 1)) start)))
          "invalid OpenCL diagnostic range")
    b ← λ s. answer "hash buffer" (library.create_buffer (count * 32) s)
    (λ s. released b (diagnose block h start count b s))
