-- ===== src/Lifecycle/Timeouts/Fallback.antt =====
-- policy_lifecycle_workflow.go: when a configured period is used, and when the fixed one is.
use revival_integration.Base.{
  ◌≡◌, ◌<◌, ℕ, suc, List, [], ◌∷◌, ◌++◌, Option, none, some, String, ℤ, pos, negsuc, true, Dict,
  lookup, arith, Option-cases, inl, inr, zero,
}
use revival_integration.Domain.Status.{Status}
use revival_integration.Domain.Request.{RequestType}
use revival_integration.Stdlib.Decimal.{codes}
use revival_integration.Stdlib.Duration.{parse_duration}
use revival_integration.Stdlib.Duration.Units.{all_digits, parse_codes-days}
use revival_integration.Lifecycle.Timeouts.{
  positive_or, configured, routing_timeout_for_request, cooling_duration,
  routing_timeout_from_config, cooling_duration_from_config, routing_timeout_config_key_for_type,
  cooling_config_key_for_status,
}

positive_or-positive : (d : ℕ) (o : Option ℤ) → 0 < d → 0 < positive_or d o
unfolding positive_or
positive_or-positive d none h = h
positive_or-positive d (some (pos zero)) h = h
positive_or-positive d (some (pos (suc n))) h = omega arith
positive_or-positive d (some (negsuc n)) h = h

configured-positive : (cfg : Dict String) (key : String) (d : ℕ) → 0 < d → 0 < configured cfg key d
unfolding configured
configured-positive cfg key d h = elim (Option-cases (lookup key cfg)) [
  | inl e ↦ ground arith
  | inr (v, e) ↦ let p = positive_or-positive d (parse_duration v) h in ground arith
]

routing_timeout_for_request-positive : (t : RequestType) → 0 < routing_timeout_for_request t
unfolding routing_timeout_for_request
routing_timeout_for_request-positive t = ground arith

cooling_duration-positive : (s : Status) → 0 < cooling_duration s
unfolding cooling_duration
cooling_duration-positive s = ground arith

-- Whatever the cached configuration holds, a routing timeout and a cooling period are longer than
-- nothing.
pub periods_are_positive :
    (cfg : Dict String) (t : RequestType) (s : Status)
    → (0 < routing_timeout_from_config cfg t) × (0 < cooling_duration_from_config cfg s)
unfolding routing_timeout_from_config cooling_duration_from_config
periods_are_positive cfg t s =
    let r = routing_timeout_for_request-positive t in
    let c = cooling_duration-positive s in
    let p =
      configured-positive cfg (routing_timeout_config_key_for_type t)
        (routing_timeout_for_request t) r in
    let q = configured-positive cfg (cooling_config_key_for_status s) (cooling_duration s) c in
    (p, ground arith)

configured-days :
    (cfg : Dict String) (key : String) (d c : ℕ) (ds : List ℕ) (v : String)
    → lookup key cfg ≡ some v
    → codes v ≡ (c ∷ ds) ++ (b'd' ∷ [])
    → all_digits (c ∷ ds) ≡ true
    → configured cfg key d ≡ d
unfolding configured positive_or parse_duration
configured-days cfg key d c ds v found text digits =
    let e = parse_codes-days c ds digits in ground arith

-- A routing timeout configured as digits and a `d`, such as `30d`, is not used: the fixed one is.
pub routing_timeout_in_days :
    (cfg : Dict String) (t : RequestType) (c : ℕ) (ds : List ℕ) (v : String)
    → lookup (routing_timeout_config_key_for_type t) cfg ≡ some v
    → codes v ≡ (c ∷ ds) ++ (b'd' ∷ [])
    → all_digits (c ∷ ds) ≡ true
    → routing_timeout_from_config cfg t ≡ routing_timeout_for_request t
unfolding routing_timeout_from_config
routing_timeout_in_days cfg t c ds v found text digits =
    configured-days cfg (routing_timeout_config_key_for_type t) (routing_timeout_for_request t) c ds
      v found text digits
