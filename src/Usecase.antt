-- ===== src/Usecase.antt =====
-- internal/usecase: the use cases of the transport.
pub mod Callback
pub mod Upload
pub mod Report
