-- ===== src/PolicyIssue.antt =====
-- The policy issue service: core/domain and workflows of ims-policyissue-backend-development.
pub mod Proposal
pub mod Calls
pub mod Activities
pub mod Issuance
pub mod Workflow
pub mod Instant
pub mod Handover
pub mod Reconciliation
pub mod Tests
