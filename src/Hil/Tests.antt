-- ===== src/Hil/Tests.antt =====
-- Concrete runs of the models of host/hil.
mod Window
mod Board
mod Prus
mod Scenarios
