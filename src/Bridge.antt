-- ===== src/Bridge.antt =====
-- The bridge between the robot and the policy: g1_sim2real/src/g1_udp_bridge.cpp.
pub mod Ticks
pub mod Arrays
pub mod Feedback
pub mod Receiver
pub mod Checksum
pub mod Samples
pub mod Commands
