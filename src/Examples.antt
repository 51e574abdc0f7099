-- ===== src/Examples.antt =====
-- Runs of the model on concrete inputs, with the theorems at inputs that meet their conditions.
mod Delays
mod Queue
mod Loop
mod Settings
mod Programs
mod System
mod Cycles
mod Server
mod Sensors
mod Floats
mod Outputs
mod Machine
