-- ===== src/Examples.antt =====
-- Concrete runs of the modelled code: the theorems at inputs that a device meets.
mod Policies
mod Protocol
mod Sender
mod ClockRuns
mod Devices
mod Tables
mod WorkerUpdate
mod Cycle
mod MainUpdate
