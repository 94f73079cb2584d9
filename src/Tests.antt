-- ===== src/Tests.antt =====
-- The theorems at concrete inputs.
mod Clouds
mod Detections
mod Graphs
mod Platform
mod Reports
mod Risks
mod Texts
