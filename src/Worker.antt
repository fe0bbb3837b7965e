-- ===== src/Worker.antt =====
-- The worker device: commands from the main device, the valves, and the sensors.
pub mod Water
pub mod Control
pub mod OtaService
pub mod Valve
