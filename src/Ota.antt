-- ===== src/Ota.antt =====
-- Firmware updates: the package header that both devices read (main/src/firmware_package.cpp), the
-- main device's part in an update of a worker (main/src/worker_ota_manager.cpp), and the update of the
-- main device (main/src/ota_manager.cpp).
pub mod Package
pub mod WorkerManager
pub mod MainManager
