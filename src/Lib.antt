-- ===== src/Lib.antt =====
-- Supryolo, a miner: its work, its sessions with a pool of either protocol, and its devices.
--
-- A pool sends jobs, the miner makes 80-byte headers of them, hashes headers with changing
-- nonces, and submits the nonces whose hash is at most the target. The parts, from the bottom up:
--
-- * Hex and Words (src/crypto.cpp): `unhex`, `hex`, `load_le`, `store_le`.
-- * Blake2b (src/crypto.cpp): `blake2b256`, on the one block of 128 bytes that the source
--   accepts.
-- * Target (src/crypto.cpp, src/coin.cpp): `meets` and `compact_target`.
-- * Work (src/coin.cpp, src/sv2.cpp): `sia_work`, `work_header` and `standard_work` build
--   headers.
-- * Job (include/yolo/stratum.hpp): the struct `Job`.
-- * CommandLine (src/main.cpp): `integer` and `numbers`, which read option values;
--   CommandLine.Options has the loop over the arguments as a table, in the order of the tests,
--   and the checks behind it.
-- * Cpu (src/cpu.cpp): `Cpu::scan`, whose `Scan` leaves out the time that it took.
-- * Sv2.Types, Sv2.Reader, Sv2.Decode and Sv2.Encode (src/sv2.cpp, include/yolo/sv2.hpp): frames
--   and messages, the structs `Reader` and `Writer`, `decode`, `setup`, `open_standard`,
--   `submit_standard`. Sv2.Decode.Format writes the wire format down a second time, as a printer.
-- * Sv2.Partition (src/sv2.cpp): `partition`, which splits the nonces and times of a job.
-- * Sv2.Session (src/sv2_session.cpp): `Session`, with a function for each branch of `receive`
--   (`on_new_job` and so on, joined in `handle`), `activate`, `settle`, `valid` and `submit`. A
--   handler takes the state and returns the new one and the events that it appends to `out`.
--   Sv2.Session.Answers joins handlers and submits to runs.
-- * Miner.Select (src/miner.cpp): which devices mine, from the options and what the drivers list.
-- * Miner.Worker (src/miner.cpp): what a worker thread reserves, scans and reports (`reserve`,
--   `place`, `report`); the backend's `scan` is an argument.
-- * Miner.Shares (src/miner.cpp): the main loop's answers and submissions over a Stratum V2
--   session (`respond`, `check_share`, `submit_found`). Miner.Shares.Ledger joins them to whole
--   sessions.
-- * Sv2.Noise (src/sv2_noise.cpp): the class `Noise`, which frames and buffers an encrypted
--   stream. An operation returns its result or the thrown text, with the object as it is then.
-- * Sv2.Connection (src/sv2_session.cpp): `Session::receive` as a whole, with the handshake
--   buffer, over `Noise` and the channel's state.
-- * Actions (shared by the next two): calls that change the state of a device, also when they
--   throw.
-- * Opencl (src/opencl/runtime.cpp, src/devices.cpp): `OpenCl::scan`, `OpenCl::hashes` and what
--   they call, with the OpenCL library as an argument, and the list of devices (`enumerate`,
--   `gpu_devices`).
-- * Hardware (src/hardware/amd.cpp, src/hardware/nvml.cpp): `amd_control_plan`, `amd_apply` and
--   `GpuManagement::apply`. Files and NVML are arguments, and so is which command succeeds; what
--   was done stands in a journal.
-- * Stratum (src/stratum.cpp): `StratumState`, with a function for each message and answer. The
--   JSON library and `difficulty_target` are arguments.
--
-- Bytes, words and characters are native numbers, texts and byte strings are lists; wrap-around
-- is written out. An exception is `err` with the text that the source throws, less the numbers
-- and reasons that it quotes; as an exception ends the connection, it carries no state, but in
-- Sv2.Noise and in what builds on Actions it leaves the state as it is then. A `std::map` is an
-- association list. Loops run over lists or over a number of rounds. Fuel have `to_string`, 20
-- digits, which are enough for 64 bits, `hex_number`, 8 digits for 32 bits, and the loop of
-- `Noise::receive`, two rounds more than there are bytes, as each takes bytes or ends a frame;
-- a loop cut off for want of rounds is an exception with a text of its own.
--
-- Not modelled: the Noise handshake and cipher (a foreign library), sockets, threads, clocks, the
-- terminal, GPU kernels and drivers, the JSON library; `difficulty_target`, the miner's
-- connections and timeouts, sensor readings.
pub mod Base
pub mod Hex
pub mod Words
pub mod Blake2b
pub mod Target
pub mod Work
pub mod Job
pub mod CommandLine
pub mod Cpu
pub mod Miner
pub mod Sv2
pub mod Actions
pub mod Opencl
pub mod Hardware
pub mod Stratum
