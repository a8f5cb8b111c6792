-- ===== src/Domain/Status.antt =====
-- policy-management-development/policy-management-development/policy-code/core/domain/policy.go:
-- the lifecycle statuses (the database's enum `lifecycle_status`) and the terminal ones.
use revival_integration.Base.{ℕ, Bool, true, false, String, ◌==◌}

-- `unset` is Go's empty string, the value of a status field that was never written.
pub data Status : Type 0 where
  free_look_active active void_lapse inactive_lapse active_lapse paid_up reduced_paid_up
        assigned_to_president pending_auto_surrender pending_surrender revival_pending
        pending_maturity death_claim_intimated death_under_investigation suspended void surrendered
        terminated_surrender matured death_claim_settled flc_cancelled cancelled_death converted
        unset :
      Status

-- The statuses are distinct texts: this numbers them.
abbrev pub status_code : Status → ℕ
status_code Status.free_look_active = 1
status_code Status.active = 2
status_code Status.void_lapse = 3
status_code Status.inactive_lapse = 4
status_code Status.active_lapse = 5
status_code Status.paid_up = 6
status_code Status.reduced_paid_up = 7
status_code Status.assigned_to_president = 8
status_code Status.pending_auto_surrender = 9
status_code Status.pending_surrender = 10
status_code Status.revival_pending = 11
status_code Status.pending_maturity = 12
status_code Status.death_claim_intimated = 13
status_code Status.death_under_investigation = 14
status_code Status.suspended = 15
status_code Status.void = 16
status_code Status.surrendered = 17
status_code Status.terminated_surrender = 18
status_code Status.matured = 19
status_code Status.death_claim_settled = 20
status_code Status.flc_cancelled = 21
status_code Status.cancelled_death = 22
status_code Status.converted = 23
status_code Status.unset = 0

-- Go's `==` on two statuses.
unfoldable pub status_eq : Status → Status → Bool
status_eq s t = status_code s == status_code t

-- The text of a status, as it stands in reasons and in the display status.
unfoldable pub status_text : Status → String
status_text Status.free_look_active = "FREE_LOOK_ACTIVE"
status_text Status.active = "ACTIVE"
status_text Status.void_lapse = "VOID_LAPSE"
status_text Status.inactive_lapse = "INACTIVE_LAPSE"
status_text Status.active_lapse = "ACTIVE_LAPSE"
status_text Status.paid_up = "PAID_UP"
status_text Status.reduced_paid_up = "REDUCED_PAID_UP"
status_text Status.assigned_to_president = "ASSIGNED_TO_PRESIDENT"
status_text Status.pending_auto_surrender = "PENDING_AUTO_SURRENDER"
status_text Status.pending_surrender = "PENDING_SURRENDER"
status_text Status.revival_pending = "REVIVAL_PENDING"
status_text Status.pending_maturity = "PENDING_MATURITY"
status_text Status.death_claim_intimated = "DEATH_CLAIM_INTIMATED"
status_text Status.death_under_investigation = "DEATH_UNDER_INVESTIGATION"
status_text Status.suspended = "SUSPENDED"
status_text Status.void = "VOID"
status_text Status.surrendered = "SURRENDERED"
status_text Status.terminated_surrender = "TERMINATED_SURRENDER"
status_text Status.matured = "MATURED"
status_text Status.death_claim_settled = "DEATH_CLAIM_SETTLED"
status_text Status.flc_cancelled = "FLC_CANCELLED"
status_text Status.cancelled_death = "CANCELLED_DEATH"
status_text Status.converted = "CONVERTED"
status_text Status.unset = ""

-- `TerminalStatuses[status]`: a missing key reads `false`.
unfoldable pub is_terminal : Status → Bool
is_terminal Status.void = true
is_terminal Status.surrendered = true
is_terminal Status.terminated_surrender = true
is_terminal Status.matured = true
is_terminal Status.death_claim_settled = true
is_terminal Status.flc_cancelled = true
is_terminal Status.cancelled_death = true
is_terminal Status.converted = true
is_terminal _ = false
