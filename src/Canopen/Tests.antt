-- ===== src/Canopen/Tests.antt =====
-- Runs of the CANopen helpers at concrete inputs, and the theorems at inputs that meet their
-- hypotheses.
mod Nodes
mod Frames
mod Transfers
