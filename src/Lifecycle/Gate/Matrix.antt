-- ===== src/Lifecycle/Gate/Matrix.antt =====
-- policy_lifecycle_workflow.go: what isStateEligible lets through, read by status.
use revival_integration.Base.{◌≡◌, ◌↔◌, Bool, true, false, not, arith}
use revival_integration.Domain.Status.{Status, is_terminal}
use revival_integration.Domain.Request.{RequestType}
use revival_integration.Lifecycle.State.{EncumbranceFlags}
use revival_integration.Lifecycle.Gate.{is_state_eligible}

-- The same rules, by status instead of by request type: what each status offers beyond death claims
-- and servicing.
offers : Status → RequestType → EncumbranceFlags → Bool
offers Status.active RequestType.surrender _ = true
offers Status.active RequestType.loan enc = not enc.has_active_loan
offers Status.active RequestType.loan_repayment enc = enc.has_active_loan
offers Status.active RequestType.maturity_claim _ = true
offers Status.active RequestType.survival_benefit _ = true
offers Status.active RequestType.commutation _ = true
offers Status.active RequestType.conversion _ = true
offers Status.active RequestType.paid_up _ = true
offers Status.void_lapse RequestType.surrender _ = true
offers Status.void_lapse RequestType.revival _ = true
offers Status.inactive_lapse RequestType.surrender _ = true
offers Status.inactive_lapse RequestType.revival _ = true
offers Status.active_lapse RequestType.surrender _ = true
offers Status.active_lapse RequestType.revival _ = true
offers Status.active_lapse RequestType.paid_up _ = true
offers Status.paid_up RequestType.surrender _ = true
offers Status.assigned_to_president RequestType.loan_repayment enc = enc.has_active_loan
offers Status.assigned_to_president RequestType.forced_surrender _ = true
offers Status.pending_auto_surrender RequestType.loan_repayment enc = enc.has_active_loan
offers Status.pending_auto_surrender RequestType.forced_surrender _ = true
offers Status.pending_maturity RequestType.maturity_claim _ = true
offers Status.free_look_active RequestType.flc _ = true
offers _ _ _ = false

-- Requests that change no money: any type outside the listed financial ones.
is_servicing : RequestType → Bool
is_servicing RequestType.nomination_change = true
is_servicing RequestType.billing_method_change = true
is_servicing RequestType.assignment = true
is_servicing RequestType.address_change = true
is_servicing RequestType.premium_refund = true
is_servicing RequestType.duplicate_bond = true
is_servicing RequestType.admin_void = true
is_servicing RequestType.reopen = true
is_servicing (RequestType.unlisted _) = true
is_servicing _ = false

pub data Standing : Type 0 where
  ended held open_to_requests : Standing

standing : Status → Standing
standing Status.suspended = Standing.held
standing Status.void = Standing.ended
standing Status.surrendered = Standing.ended
standing Status.terminated_surrender = Standing.ended
standing Status.matured = Standing.ended
standing Status.death_claim_settled = Standing.ended
standing Status.flc_cancelled = Standing.ended
standing Status.cancelled_death = Standing.ended
standing Status.converted = Standing.ended
standing _ = Standing.open_to_requests

table : Standing → RequestType → Bool → Bool → Bool
table Standing.ended _ _ _ = false
table Standing.held RequestType.death_claim _ _ = true
table Standing.held _ _ _ = false
table Standing.open_to_requests RequestType.death_claim _ _ = true
table Standing.open_to_requests _ true _ = true
table Standing.open_to_requests _ false offered = offered

pub permitted : Status → RequestType → EncumbranceFlags → Bool
unfolding offers is_servicing standing table
permitted st r enc = table (standing st) r (is_servicing r) (offers st r enc)

-- The state gate is the table of permissions by status: a terminal status permits nothing, a
-- suspended one death claims alone, every other one death claims, servicing requests and what it
-- offers.
pub is_state_eligible-permitted :
    (r : RequestType) (st : Status) (enc : EncumbranceFlags)
    → (is_state_eligible r st enc).0 ≡ permitted st r enc
unfolding is_state_eligible permitted
is_state_eligible-permitted r st enc = ground arith

-- In a terminal status no request of any type is eligible.
pub terminal_admits_nothing :
    (r : RequestType) (st : Status) (enc : EncumbranceFlags)
    → is_terminal st ≡ true
    → (is_state_eligible r st enc).0 ≡ false
unfolding is_state_eligible
terminal_admits_nothing r st enc h = ground arith

-- A suspended policy admits death claims and nothing else.
pub suspended_admits_only_death :
    (r : RequestType) (enc : EncumbranceFlags)
    → ((is_state_eligible r Status.suspended enc).0 ≡ true) ↔ (r ≡ RequestType.death_claim)
unfolding is_state_eligible
suspended_admits_only_death r enc = ground arith
