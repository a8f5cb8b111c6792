-- ===== src/Domain/ConfigKey.antt =====
-- policy-management-development/policy-management-development/policy-code/core/domain/
-- policy_state_config.go: the configuration keys that the lifecycle workflow reads.
use revival_integration.Base.{String}

abbrev pub flc_period_days : String
flc_period_days = "flc_period_days"

abbrev pub flc_period_distance_marketing_days : String
flc_period_distance_marketing_days = "flc_period_distance_marketing_days"

abbrev pub routing_timeout_surrender : String
routing_timeout_surrender = "routing_timeout_surrender"

abbrev pub routing_timeout_forced_surrender : String
routing_timeout_forced_surrender = "routing_timeout_forced_surrender"

abbrev pub routing_timeout_loan : String
routing_timeout_loan = "routing_timeout_loan"

abbrev pub routing_timeout_loan_repayment : String
routing_timeout_loan_repayment = "routing_timeout_loan_repayment"

abbrev pub routing_timeout_revival : String
routing_timeout_revival = "routing_timeout_revival"

abbrev pub routing_timeout_death_claim : String
routing_timeout_death_claim = "routing_timeout_death_claim"

abbrev pub routing_timeout_maturity_claim : String
routing_timeout_maturity_claim = "routing_timeout_maturity_claim"

abbrev pub routing_timeout_survival_benefit : String
routing_timeout_survival_benefit = "routing_timeout_survival_benefit"

abbrev pub routing_timeout_commutation : String
routing_timeout_commutation = "routing_timeout_commutation"

abbrev pub routing_timeout_conversion : String
routing_timeout_conversion = "routing_timeout_conversion"

abbrev pub routing_timeout_flc : String
routing_timeout_flc = "routing_timeout_flc"

abbrev pub routing_timeout_nfr : String
routing_timeout_nfr = "routing_timeout_nfr"

abbrev pub routing_timeout_premium_refund : String
routing_timeout_premium_refund = "routing_timeout_premium_refund"

abbrev pub cooling_period_void : String
cooling_period_void = "cooling_period_void"

abbrev pub cooling_period_surrendered : String
cooling_period_surrendered = "cooling_period_surrendered"

abbrev pub cooling_period_terminated_surrender : String
cooling_period_terminated_surrender = "cooling_period_terminated_surrender"

abbrev pub cooling_period_matured : String
cooling_period_matured = "cooling_period_matured"

abbrev pub cooling_period_death_claim_settled : String
cooling_period_death_claim_settled = "cooling_period_death_claim_settled"

abbrev pub cooling_period_flc_cancelled : String
cooling_period_flc_cancelled = "cooling_period_flc_cancelled"

abbrev pub cooling_period_cancelled_death : String
cooling_period_cancelled_death = "cooling_period_cancelled_death"

abbrev pub cooling_period_converted : String
cooling_period_converted = "cooling_period_converted"
