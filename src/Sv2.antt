-- ===== src/Sv2.antt =====
-- include/yolo/sv2.hpp and src/sv2.cpp, src/sv2_session.cpp: Stratum V2.
pub mod Types
pub mod Reader
pub mod Decode
pub mod Encode
pub mod Partition
pub mod Noise
pub mod Connection
pub mod Session
