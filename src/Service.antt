-- ===== src/Service.antt =====
-- cmd/service: how the parts are put together.
pub mod Routes
pub mod Schema
pub mod Follows
pub mod Emits
pub mod Keeps
pub mod Ends
pub mod Shadowed
