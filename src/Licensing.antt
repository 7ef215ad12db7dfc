-- ===== src/Licensing.antt =====
-- packages/licensing/policy.py: host-owned execution profiles and the gate that every plugin passes
-- before it runs.
pub mod Tests
pub mod Policy
pub mod Evaluate
pub mod Registry
pub mod Requirement
pub mod Gate
pub mod Closed
