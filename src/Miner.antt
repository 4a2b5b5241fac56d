-- ===== src/Miner.antt =====
-- src/miner.cpp: what the worker threads and the main loop do to the state that they share.
pub mod Worker
pub mod Shares
pub mod Select
