-- ===== src/Lifecycle.antt =====
-- policy-management-development/policy-management-development/policy-code/workflows:
-- the long-running workflow of one policy, its state, its signals and its handlers.
pub mod State
pub mod Signal
pub mod Command
pub mod World
pub mod Transition
pub mod Gate
pub mod Timeouts
pub mod Routing
pub mod Dispatch
pub mod Request
pub mod Pending
pub mod Completion
pub mod Payments
pub mod Compliance
pub mod Administration
pub mod Created
pub mod Step
pub mod Run
pub mod Tests
