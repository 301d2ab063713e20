-- ===== src/Auth/Device.antt =====
-- internal/auth/device.go. A handler takes what it read from the request, the random texts that it
-- draws, and one reading of the clock (nanoseconds); it returns its response and the new state.
-- The stores and the hash of a text are parameters.
pub mod Entries
pub mod Loops
pub mod Local
pub mod Handlers
pub mod Refresh
pub mod Revoke
pub mod Flow
pub mod Timely
mod Examples
