-- ===== src/Controller.antt =====
-- The controllers (aiosmtpd/controller.py), which run a server on an event loop.
pub mod Base
pub mod Localhost
pub mod Settings
pub mod Threaded
pub mod Trigger
pub mod Unthreaded
mod Tests
