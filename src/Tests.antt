-- ===== src/Tests.antt =====
-- Tests: the theorems about g1_sim2real/src applied to concrete inputs.
mod Values
mod Policy
mod Bridge
mod Joints
mod Locomotion
mod Loop
mod Npz
mod Vr
