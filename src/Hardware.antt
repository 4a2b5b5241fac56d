-- ===== src/Hardware.antt =====
-- src/hardware/amd.cpp, src/hardware/nvml.cpp and include/yolo/amd.hpp: what the miner reads from GPUs and
-- the settings that it writes. Files and drivers are arguments.
pub mod Text
pub mod Amd
pub mod Journal
pub mod Nvml
mod Runs
