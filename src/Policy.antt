-- ===== src/Policy.antt =====
-- The header-only decision code of the main device: each module below is one header.
pub mod AutoRecovery
pub mod AutoWatering
pub mod ClockMath
pub mod FirmwareVersion
pub mod StatusLed
