-- ===== src/Lifecycle/Completion/AllowList.antt =====
-- policy_lifecycle_workflow.go: what handleNFRCompleted lets a child workflow write.
use text.Mathlib.Text.{◌==◌ as str_eq}
use text.Mathlib.TextEquality.{eq_iff}
use revival_integration.Base.{
  ◌≡◌, refl, Bool, false, ◌||◌, List, [], ◌∷◌, String, none, arith, lookup,
}
use revival_integration.Domain.Request.{RequestType}
use revival_integration.Lifecycle.Signal.{OperationCompletedSignal, RawMessage}
use revival_integration.Lifecycle.Command.{MetadataValue}
use revival_integration.Lifecycle.World.{Env, World}
use revival_integration.Lifecycle.Completion.{
  one_of, allowed_entries, filter_nfr_payload, nfr_metadata_allow_list, reported_metadata,
  write_metadata, handle_nfr_completed,
}
use revival_integration.Lifecycle.Completion.Metadata.{written}

abbrev pub is_assignment_key : String → Bool
is_assignment_key key =
    str_eq key "assignment_type"
    || str_eq key "assignment_status"
    || str_eq key "assignee_name"
    || str_eq key "assignee_address"

allowed_entries-lookup :
    (key : String) (allowed : List String) (payload : List (String × String))
    → one_of key allowed ≡ false
    → lookup key (allowed_entries allowed payload) ≡ none
unfolding allowed_entries lookup
allowed_entries-lookup key allowed [] h = refl
allowed_entries-lookup key allowed ((k, v) ∷ payload) h =
    ground (arith, eq_iff k key, allowed_entries-lookup key allowed payload h)

reported_metadata-lookup :
    (key : String) (t : RequestType) (raw : RawMessage)
    → is_assignment_key key ≡ false
    → lookup key (reported_metadata t raw) ≡ none
unfolding reported_metadata filter_nfr_payload nfr_metadata_allow_list one_of lookup
reported_metadata-lookup key t raw h = grind (arith, eq_iff, allowed_entries-lookup)

write_metadata-written :
    (key : String) (es : List (String × MetadataValue)) (w : World)
    → lookup key es ≡ none
    → written key (write_metadata es w).trace ≡ written key w.trace
unfolding write_metadata
write_metadata-written key [] w h = refl
write_metadata-written key (e ∷ es) w h = ground arith

-- Whatever the completed child workflow reports, handleNFRCompleted writes no key but the four of
-- an assignment.
pub nfr_completed_writes_assignments :
    (env : Env) (sig : OperationCompletedSignal) (w : World) (key : String)
    → is_assignment_key key ≡ false
    → written key (handle_nfr_completed env sig w).trace ≡ written key w.trace
unfolding handle_nfr_completed
nfr_completed_writes_assignments env sig w key h =
    grind (arith, write_metadata-written, reported_metadata-lookup)
