-- ===== src/Surrender.antt =====
-- Workflows of the surrender service, temporal/workflows: approval_workflow.go,
-- forced_surrender_workflow.go, payment_workflow.go, voluntary_surrender_workflow.go and
-- pm_contract.go.
pub mod Approval
pub mod Forced
pub mod Contract
pub mod Desks
pub mod Processing
pub mod Payment
pub mod Tests
