-- ===== src/Domain.antt =====
-- policy-management-development/policy-management-development/policy-code/core/domain: the
-- constants and tables that the policy lifecycle is built on.
pub mod Status
pub mod Request
pub mod ConfigKey
