-- ===== src/Web.antt =====
-- The handlers of main/src/webui.cpp that take a firmware file.
pub mod WorkerUpload
