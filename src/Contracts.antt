-- ===== src/Contracts.antt =====
-- packages/plugin_sdk/contracts.py: the file-based worker protocol. Each child holds the models of
-- one part of the file with their validators, and the modules below it what the validators ensure.
pub mod Tests
pub mod Patterns
pub mod Kinds
pub mod Json
pub mod Violations
pub mod Manifest
pub mod Request
pub mod Artifact
pub mod Quality
pub mod Outcome
