-- ===== src/Worker/Limits.antt =====
-- internal/worker: ticks of the doser, batches of the result consumer and all the other events are
-- sequences of repository calls that Repository/Attempts allows.
pub mod Ticks
pub mod Batches
pub mod System
pub mod Course
