-- ===== src/Worker.antt =====
-- internal/worker and internal/blocklist: the loops that drive the campaigns.
pub mod Accounts
pub mod Schedule
pub mod Doser
pub mod Cache
pub mod Outbox
pub mod Poller
pub mod Scheduler
pub mod Running
pub mod Consumer
pub mod System
pub mod Limits
