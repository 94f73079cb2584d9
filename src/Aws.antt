-- ===== src/Aws.antt =====
-- internal/collectors/aws: what the collector reads out of IAM documents and resource tags.
pub mod Glob
pub mod Tags
pub mod Policy
