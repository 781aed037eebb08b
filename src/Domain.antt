-- ===== src/Domain.antt =====
-- internal/domain: the data model, the error policy and the phone helpers.
pub mod Errors
pub mod Status
pub mod Models
pub mod Phone
pub mod Json
