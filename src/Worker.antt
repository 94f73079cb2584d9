-- ===== src/Worker.antt =====
-- cmd/worker: the jobs that run between the collectors and the API.
pub mod Store
pub mod Project
pub mod Alerts
