-- ===== src/Runner.antt =====
-- packages/pipeline/runner.py: one worker run under the policy gate, with timeout and cancellation.
pub mod Tests
pub mod Ends
pub mod Token
pub mod Wait
pub mod Failure
pub mod Contract
pub mod Meeting
pub mod Precheck
pub mod Finish
pub mod Run
pub mod Gated
pub mod Shelf
pub mod Settled
pub mod Publishes
