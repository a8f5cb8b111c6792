-- ===== src/Lifecycle/Administration/Frame.antt =====
-- policy_lifecycle_workflow.go: what cancelling the child workflows leaves alone.
use revival_integration.Base.{◌≡◌, refl, List, [], ◌∷◌}
use revival_integration.Lifecycle.State.{PendingRequest}
use revival_integration.Lifecycle.World.{World}
use revival_integration.Lifecycle.Administration.{cancel_all}

pub cancel_all-state : (prs : List PendingRequest) (w : World) → (cancel_all prs w).state ≡ w.state
unfolding cancel_all
cancel_all-state [] w = refl
cancel_all-state (pr ∷ prs) w = cancel_all-state prs _
