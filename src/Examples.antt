-- ===== src/Examples.antt =====
-- Concrete runs of the packages under internal.
pub mod Data
mod Domain
mod Repository
mod Scheduling
mod Workers
mod Messages
mod Uploads
mod Reports
mod Requests
mod Notices
mod Attachments
mod Consumers
mod Starts
