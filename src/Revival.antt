-- ===== src/Revival.antt =====
-- The revival of a lapsed policy: workflow/revival_workflow.go.
pub mod State
pub mod Signal
pub mod Case
pub mod Maturity
pub mod DataEntry
pub mod QualityCheck
pub mod Approval
pub mod Loop
pub mod Collection
pub mod Workflow
pub mod Monitor
pub mod Batch
pub mod FirstCollection
pub mod Tests
