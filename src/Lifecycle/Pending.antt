-- ===== src/Lifecycle/Pending.antt =====
-- policy_lifecycle_workflow.go: the loop of handleOperationCompleted and handleNFRCompleted that
-- takes a request out of the slice of pending ones. `remaining := state.PendingRequests[:0]` shares
-- the slice's array, so each kept element is written over an earlier slot, while `matched` keeps
-- pointing at the slot where the match was found: the array, the number of elements kept and the
-- index of the match are the loop's state.
pub mod Compaction
pub mod Aliasing
pub mod Locks
use text.Mathlib.Text.{◌==◌ as str_eq}
use revival_integration.Base.{
  ℕ, zero, suc, Option, none, some, List, String, if◌then◌else◌, length, get_elem?, set, take,
}
use revival_integration.Lifecycle.State.{PendingRequest}

pub record Slots : Type 0 where
  pub slots : List PendingRequest
  pub kept : ℕ
  pub matched : Option ℕ

-- One round, at index `i`, where `pr` stands.
pub visit : String → ℕ → PendingRequest → Slots → Slots
visit key i pr l =
    if str_eq pr.request_id key
    then record l { matched = some i }
    else record l { slots = set l.slots l.kept pr; kept = suc l.kept }

-- `for i := range state.PendingRequests`, from index `i` with `n` rounds to go.
pub sweep : String → ℕ → ℕ → Slots → Slots
unfolding visit
sweep key zero i l = l
sweep key (suc n) i l =
    sweep key n (suc i) (elim (get_elem? l.slots i) [ none ↦ l | some pr ↦ visit key i pr l ])

-- `*matched`, read when the loop is over.
pub deref : Option ℕ → List PendingRequest → Option PendingRequest
deref none slots = none
deref (some i) slots = get_elem? slots i

-- The remaining requests and what `matched` points at.
unfoldable pub take_pending :
    String → List PendingRequest → List PendingRequest × Option PendingRequest
unfolding sweep deref
take_pending key prs =
    let l = sweep key (length prs) 0 (record { slots = prs; kept = 0; matched = none }) in
    (take l.kept l.slots, deref l.matched l.slots)
