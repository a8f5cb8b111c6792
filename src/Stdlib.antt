-- ===== src/Stdlib.antt =====
-- What the program uses of Go's standard library: decimal text, durations and calendar dates.
pub mod Decimal
pub mod Duration
pub mod Calendar
