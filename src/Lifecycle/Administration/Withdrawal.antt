-- ===== src/Lifecycle/Administration/Withdrawal.antt =====
-- policy_lifecycle_workflow.go: a request is routed, and then withdrawn.
use text.Mathlib.Text.{◌==◌ as str_eq}
use text.Mathlib.TextEquality.{eq_iff}
use text.Mathlib.TextPositions.{eq_refl}
use revival_integration.Base.{
  ◌≡◌, refl, sym, ap, ◌∙◌, ◌⊎◌, inl, inr, Bool-cases, if◌then◌else◌, not, ◌&&◌, true, false, Option,
  none, some, List, [], ◌∷◌, ◌++◌, String, arith,
}
use revival_integration.Stdlib.Duration.{Time}
use revival_integration.Domain.Request.{RequestCategory, RequestType}
use revival_integration.Domain.Status.{Status, status_eq}
use revival_integration.Lifecycle.State.{PolicyLifecycleState, PendingRequest, FinancialLock}
use revival_integration.Lifecycle.Signal.{PolicyRequestSignal, WithdrawalRequestSignal}
use revival_integration.Lifecycle.World.{Env, World, seen}
use revival_integration.Lifecycle.Transition.{do_transition}
use revival_integration.Lifecycle.Gate.{
  is_request_eligible, requires_financial_lock, pre_route_status,
}
use revival_integration.Lifecycle.Request.{
  dedup_key, refresh_state, pre_route, acquire_lock, dispatch_child, route_financial,
  handle_financial_request,
}
use revival_integration.Lifecycle.Request.Routed.{handle_financial_request-routed}
use revival_integration.Lifecycle.Completion.{release_lock_of}
use revival_integration.Lifecycle.Pending.Compaction.{is_pending}
use revival_integration.Lifecycle.Pending.Locks.{is_covered, LockIsCovered, holds_lock}
use revival_integration.Lifecycle.Administration.{
  handle_withdrawal, find_pending, withdraw_found, revert_pre_route,
}

-- The request that was appended last is the one that is found.
find_pending-snoc :
    (key : String) (prs : List PendingRequest) (pr : PendingRequest)
    → is_pending key prs ≡ false
    → str_eq pr.request_id key ≡ true
    → find_pending key (prs ++ (pr ∷ [])) ≡ some (pr, prs)
unfolding find_pending
find_pending-snoc key [] pr n e = ground arith
find_pending-snoc key (p ∷ prs) pr n e =
    let ih = find_pending-snoc key prs pr (ground arith) e in ground arith

-- The request that is appended when a child workflow is dispatched.
dispatched :
    (env : Env) (key : String) (sig : PolicyRequestSignal) (c : RequestCategory) (t : Time)
    (w : World)
    → (pr : PendingRequest) × ((dispatch_child env key sig c t w).state.pending_requests
        ≡ w.state.pending_requests ++ (pr ∷ []))
      × (str_eq pr.request_id key ≡ true)
      × (pr.request_type ≡ sig.request_type)
unfolding dispatch_child
dispatched env key sig c t w = (_, refl, eq_refl key, refl)

dispatch_child-appended :
    (env : Env) (key : String) (sig : PolicyRequestSignal) (c : RequestCategory) (t : Time)
    (w : World) (prs : List PendingRequest)
    → w.state.pending_requests ≡ prs
    → (pr : PendingRequest) × ((dispatch_child env key sig c t w).state.pending_requests
        ≡ prs ++ (pr ∷ []))
      × (str_eq pr.request_id key ≡ true)
      × (pr.request_type ≡ sig.request_type)
dispatch_child-appended env key sig c t w prs e =
    let (pr, a, k, r) = dispatched env key sig c t w in (pr, a ∙ ap (λ qs. qs ++ (pr ∷ [])) e, k, r)

moved-pending :
    (env : Env) (key : String) (sig : PolicyRequestSignal) (t : Time) (w : World)
    → (acquire_lock env key sig t (pre_route env key sig w)).state.pending_requests
      ≡ w.state.pending_requests
unfolding acquire_lock pre_route do_transition
moved-pending env key sig t w = ground arith

route_financial-appended :
    (env : Env) (key : String) (sig : PolicyRequestSignal) (w : World)
    → (pr : PendingRequest) × ((route_financial env key sig w).state.pending_requests
        ≡ w.state.pending_requests ++ (pr ∷ []))
      × (str_eq pr.request_id key ≡ true)
      × (pr.request_type ≡ sig.request_type)
unfolding route_financial
route_financial-appended env key sig w =
    dispatch_child-appended env key sig sig.request_category _ _ w.state.pending_requests
      (moved-pending env key sig _ _)

-- What routing does to the status: the previous one is kept where a transition is made.
route_financial-status :
    (env : Env) (key : String) (sig : PolicyRequestSignal) (w : World)
    → let target = pre_route_status sig.request_type in
      let st = (route_financial env key sig w).state in
      (status_eq target Status.unset ≡ true → st.current_status ≡ w.state.current_status)
      × (status_eq target Status.unset ≡ false
          → (st.current_status ≡ target) × (st.previous_status ≡ w.state.current_status))
unfolding route_financial dispatch_child acquire_lock pre_route do_transition
route_financial-status env key sig w = (λ h. ground arith, λ h. (ground arith, ground arith))

-- What routing does to the lock, where the request is eligible.
route_financial-lock :
    (env : Env) (key : String) (sig : PolicyRequestSignal) (w : World)
    → let st = (route_financial env key sig w).state in
      (st.active_lock ≡ w.state.active_lock)
      ⊎ ((requires_financial_lock sig.request_type ≡ true) × (holds_lock key st.active_lock ≡ true))
unfolding route_financial dispatch_child acquire_lock pre_route do_transition
route_financial-lock env key sig w = elim (Bool-cases (requires_financial_lock sig.request_type)) [
  | inl h ↦ inr (h, ground (arith, eq_refl key))
  | inr h ↦ inl (ground arith)
]

-- What a withdrawal does once the request is found.
module _ (env : Env) (wd : WithdrawalRequestSignal) (w : World) (pr : PendingRequest)
    (others : List PendingRequest) (new : seen wd.request_id w ≡ false)
    (found : find_pending wd.target_request_id w.state.pending_requests ≡ some (pr, others)) where
  withdrawn-pending : (handle_withdrawal env wd w).state.pending_requests ≡ others
  unfolding handle_withdrawal release_lock_of do_transition
  withdrawn-pending = ground arith

  withdrawn-lock :
      (handle_withdrawal env wd w).state.active_lock
      ≡ (if holds_lock wd.target_request_id w.state.active_lock then none else w.state.active_lock)
  unfolding handle_withdrawal release_lock_of do_transition
  withdrawn-lock = ground arith

  withdrawn-status :
      let target = pre_route_status pr.request_type in
      (handle_withdrawal env wd w).state.current_status ≡ (
        if not (status_eq target Status.unset) && status_eq w.state.current_status target
        then w.state.previous_status
        else w.state.current_status)
  unfolding handle_withdrawal withdraw_found revert_pre_route release_lock_of do_transition
  withdrawn-status = ground arith

refresh_state-kept :
    (env : Env) (w : World)
    → ((refresh_state env w).state.pending_requests ≡ w.state.pending_requests)
      × ((refresh_state env w).state.active_lock ≡ w.state.active_lock)
unfolding refresh_state
refresh_state-kept env w = (ground arith, ground arith)

-- A request that is not pending does not hold a covered lock.
not_held :
    (key : String) (lock : Option FinancialLock) (prs : List PendingRequest)
    → is_covered lock prs ≡ true
    → is_pending key prs ≡ false
    → holds_lock key lock ≡ false
not_held key none prs c n = refl
not_held key (some lock) prs c n = ground (arith, eq_iff lock.request_id key)

-- Of an eligible request that needs the lock, the lock was free.
lock_was_free :
    (t : RequestType) (st : PolicyLifecycleState)
    → (is_request_eligible t st).eligible ≡ true
    → requires_financial_lock t ≡ true
    → st.active_lock ≡ none
unfolding is_request_eligible
lock_was_free t st h r = ground arith

status_eq_self : (s : Status) → status_eq s s ≡ true
unfolding status_eq
status_eq_self s = ground arith

-- Routing an eligible request and withdrawing it, on the world that is fresh from the database.
module _ (env : Env) (key : String) (sig : PolicyRequestSignal) (wd : WithdrawalRequestSignal)
    (w : World) (eligible : (is_request_eligible sig.request_type w.state).eligible ≡ true)
    (not_pending : is_pending key w.state.pending_requests ≡ false) (covered : LockIsCovered w)
    (target : wd.target_request_id ≡ key)
    (new : seen wd.request_id (route_financial env key sig w) ≡ false) where
  routed_withdrawn :
      let st = (handle_withdrawal env wd (route_financial env key sig w)).state in
      (st.current_status ≡ w.state.current_status)
      × (st.pending_requests ≡ w.state.pending_requests)
      × (st.active_lock ≡ w.state.active_lock)
  routed_withdrawn =
      let routed = route_financial env key sig w in
      let (pr, appended, k, t) = route_financial-appended env key sig w in
      let found : find_pending wd.target_request_id routed.state.pending_requests
          ≡ some (pr, w.state.pending_requests) =
        rw (target, appended) (find_pending-snoc key w.state.pending_requests pr not_pending k) in
      let status = withdrawn-status env wd routed pr w.state.pending_requests new found in
      let lock = withdrawn-lock env wd routed pr w.state.pending_requests new found in
      let before = route_financial-status env key sig w in
      let held = not_held key w.state.active_lock w.state.pending_requests covered not_pending in
      (
        grind (
          arith,
          t,
          status,
          before.0,
          before.1,
          status_eq_self (pre_route_status sig.request_type),
        ),
        withdrawn-pending env wd routed pr w.state.pending_requests new found,
        elim (route_financial-lock env key sig w) [
          | inl same ↦ grind (arith, lock, same, target, held)
          | inr (r, mine) ↦
              let free = lock_was_free sig.request_type w.state eligible r in
              grind (arith, lock, target, mine, free)
        ],
      )

-- A request that is routed and then withdrawn leaves no trace in the status, the pending requests
-- and the lock: they are as the database gave them before, if its identifier was not pending and
-- the lock was covered by a pending request.
pub withdrawal_undoes_request :
    (env : Env) (sig : PolicyRequestSignal) (wd : WithdrawalRequestSignal) (w : World)
    → seen (dedup_key sig) w ≡ false
    → status_eq (refresh_state env w).state.current_status Status.suspended ≡ false
    → (is_request_eligible sig.request_type (refresh_state env w).state).eligible ≡ true
    → is_pending (dedup_key sig) w.state.pending_requests ≡ false
    → LockIsCovered w
    → wd.target_request_id ≡ dedup_key sig
    → seen wd.request_id (handle_financial_request env sig w) ≡ false
    → let st = (handle_withdrawal env wd (handle_financial_request env sig w)).state in
      (st.current_status ≡ (refresh_state env w).state.current_status)
      × (st.pending_requests ≡ w.state.pending_requests)
      × (st.active_lock ≡ w.state.active_lock)
withdrawal_undoes_request env sig wd w new awake eligible not_pending covered target new' =
    let fresh = refresh_state env w in
    let (prs, lock) = refresh_state-kept env w in
    let routed = handle_financial_request-routed env sig w new awake eligible in
    let n : is_pending (dedup_key sig) fresh.state.pending_requests ≡ false = grind arith in
    let c : LockIsCovered fresh = grind arith in
    let seen' : seen wd.request_id (route_financial env (dedup_key sig) sig fresh) ≡ false =
      ap (λ v. seen wd.request_id v) (sym routed) ∙ new' in
    let (s, p, l) = routed_withdrawn env (dedup_key sig) sig wd fresh eligible n c target seen' in
    let back = ap (λ v. (handle_withdrawal env wd v).state) routed in
    (
      ap (λ st. st.current_status) back ∙ s,
      (ap (λ st. st.pending_requests) back ∙ p) ∙ prs,
      (ap (λ st. st.active_lock) back ∙ l) ∙ lock,
    )
