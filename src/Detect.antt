-- ===== src/Detect.antt =====
-- internal/detect: the engine that runs the detectors, and the detector of role chains.
pub mod Subject
pub mod Engine
pub mod RoleChain
pub mod Support
pub mod Hygiene
pub mod Access
pub mod Leaks
pub mod Usage
pub mod Anomaly
pub mod Detectors
