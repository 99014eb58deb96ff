-- ===== src/Tests.antt =====
-- Runs of the model at concrete inputs, and the theorems applied there.
mod Data
mod Targets
mod Line
mod Commands
mod Loops
mod Rings
mod Printed
mod Names
mod Suite
