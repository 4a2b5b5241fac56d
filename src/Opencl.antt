-- ===== src/Opencl.antt =====
-- src/opencl/runtime.cpp and src/devices.cpp: the host side of the OpenCL backend, and the list of GPUs.
pub mod Candidates
pub mod Prepare
pub mod Host
pub mod Validated
pub mod Devices
mod Runs
