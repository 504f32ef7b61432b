-- ===== src/Tests.antt =====
-- Tests: the packages that the service calls, as small concrete functions, and the theorems applied to
-- a concrete state of the service.
mod BitLists
mod Buckets
mod Tracked
mod World
mod Stores
mod Blocks
mod Events
mod Tracking
mod Registry
mod Starting
mod Publishing
mod Running
mod Ending
mod Opening
mod Interleaving
mod Configuring
mod Connecting
mod SettingUp
mod Reporting
mod Serving
mod Stopping
