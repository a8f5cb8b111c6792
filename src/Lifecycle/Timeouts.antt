-- ===== src/Lifecycle/Timeouts.antt =====
-- policy_lifecycle_workflow.go: routing timeouts and cooling periods, from the cached
-- configuration with fixed values to fall back on. Durations are in nanoseconds.
pub mod Fallback
use text.Mathlib.Text.{◌==◌ as str_eq}
use revival_integration.Base.{
  ℕ, zero, suc, ◌*◌, ◌%◌, ◌^◌, Option, none, some, String, ℤ, pos, negsuc, Dict, lookup,
  if◌then◌else◌,
}
use revival_integration.Domain.Status.{Status}
use revival_integration.Domain.Request.{RequestType}
use revival_integration.Domain.ConfigKey
use revival_integration.Stdlib.Duration.{day, of_bits, parse_duration}

abbrev days : ℕ → ℕ
days n = n * day

unfoldable pub routing_timeout_for_request : RequestType → ℕ
routing_timeout_for_request RequestType.surrender = days 7
routing_timeout_for_request RequestType.forced_surrender = days 7
routing_timeout_for_request RequestType.conversion = days 7
routing_timeout_for_request RequestType.loan = days 3
routing_timeout_for_request RequestType.loan_repayment = days 3
routing_timeout_for_request RequestType.death_claim = days 90
routing_timeout_for_request RequestType.revival = days 30
routing_timeout_for_request RequestType.maturity_claim = days 30
routing_timeout_for_request RequestType.survival_benefit = days 30
routing_timeout_for_request RequestType.commutation = days 30
routing_timeout_for_request RequestType.flc = days 30
routing_timeout_for_request _ = days 15

-- `time.Duration(flcDays) * 24 * time.Hour` wraps around in an `int64`; 15 days where the
-- configured number is not positive.
unfoldable pub get_flc_period : ℤ → ℤ
get_flc_period (pos zero) = of_bits (days 15)
get_flc_period (pos (suc n)) = of_bits (days (suc n) % 2 ^ 64)
get_flc_period (negsuc n) = of_bits (days 15)

unfoldable pub cooling_duration : Status → ℕ
cooling_duration Status.death_claim_settled = days 180
cooling_duration Status.matured = days 90
cooling_duration Status.converted = days 90
cooling_duration Status.surrendered = days 90
cooling_duration Status.terminated_surrender = days 90
cooling_duration Status.flc_cancelled = days 30
cooling_duration Status.cancelled_death = days 30
cooling_duration Status.void = days 60
cooling_duration _ = days 90

unfoldable pub routing_timeout_config_key_for_type : RequestType → String
routing_timeout_config_key_for_type RequestType.surrender = ConfigKey.routing_timeout_surrender
routing_timeout_config_key_for_type RequestType.forced_surrender =
    ConfigKey.routing_timeout_forced_surrender
routing_timeout_config_key_for_type RequestType.loan = ConfigKey.routing_timeout_loan
routing_timeout_config_key_for_type RequestType.loan_repayment =
    ConfigKey.routing_timeout_loan_repayment
routing_timeout_config_key_for_type RequestType.revival = ConfigKey.routing_timeout_revival
routing_timeout_config_key_for_type RequestType.death_claim = ConfigKey.routing_timeout_death_claim
routing_timeout_config_key_for_type RequestType.maturity_claim =
    ConfigKey.routing_timeout_maturity_claim
routing_timeout_config_key_for_type RequestType.survival_benefit =
    ConfigKey.routing_timeout_survival_benefit
routing_timeout_config_key_for_type RequestType.commutation = ConfigKey.routing_timeout_commutation
routing_timeout_config_key_for_type RequestType.conversion = ConfigKey.routing_timeout_conversion
routing_timeout_config_key_for_type RequestType.flc = ConfigKey.routing_timeout_flc
routing_timeout_config_key_for_type RequestType.premium_refund =
    ConfigKey.routing_timeout_premium_refund
routing_timeout_config_key_for_type _ = ConfigKey.routing_timeout_nfr

pub cooling_config_key_for_status : Status → String
cooling_config_key_for_status Status.void = ConfigKey.cooling_period_void
cooling_config_key_for_status Status.surrendered = ConfigKey.cooling_period_surrendered
cooling_config_key_for_status Status.terminated_surrender =
    ConfigKey.cooling_period_terminated_surrender
cooling_config_key_for_status Status.matured = ConfigKey.cooling_period_matured
cooling_config_key_for_status Status.death_claim_settled =
    ConfigKey.cooling_period_death_claim_settled
cooling_config_key_for_status Status.flc_cancelled = ConfigKey.cooling_period_flc_cancelled
cooling_config_key_for_status Status.cancelled_death = ConfigKey.cooling_period_cancelled_death
cooling_config_key_for_status Status.converted = ConfigKey.cooling_period_converted
cooling_config_key_for_status _ = ""

-- `d, err := time.ParseDuration(v); err == nil && d > 0`
positive_or : ℕ → Option ℤ → ℕ
positive_or fallback none = fallback
positive_or fallback (some (pos zero)) = fallback
positive_or fallback (some (pos (suc n))) = suc n
positive_or fallback (some (negsuc n)) = fallback

configured : Dict String → String → ℕ → ℕ
unfolding positive_or
configured cached_config key fallback = elim (lookup key cached_config) [
  | none ↦ fallback
  | some v ↦ positive_or fallback (parse_duration v)
]

unfoldable pub routing_timeout_from_config : Dict String → RequestType → ℕ
unfolding configured
routing_timeout_from_config cached_config request_type =
    configured cached_config (routing_timeout_config_key_for_type request_type)
      (routing_timeout_for_request request_type)

unfoldable pub cooling_duration_from_config : Dict String → Status → ℕ
unfolding configured
cooling_duration_from_config cached_config terminal_status =
    let key = cooling_config_key_for_status terminal_status in
    if str_eq key ""
    then cooling_duration terminal_status
    else configured cached_config key (cooling_duration terminal_status)
