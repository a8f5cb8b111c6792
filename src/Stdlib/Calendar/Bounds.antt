-- ===== src/Stdlib/Calendar/Bounds.antt =====
-- The anniversary of a date lies 365 or 366 days after it.
use revival_integration.Base.{◌+◌, ◌*◌, ◌≤◌, arith}
use revival_integration.Stdlib.Duration.{Time, day}
use revival_integration.Stdlib.Calendar.{add_12_months}

pub add_12_months_bounds :
    (t : Time) → (t + 365 * day ≤ add_12_months t) × (add_12_months t ≤ t + 366 * day)
unfolding add_12_months
add_12_months_bounds t = ground arith
