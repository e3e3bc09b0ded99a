-- ===== src/Handlers.antt =====
-- The handlers of the package (aiosmtpd/handlers.py).
pub mod Lines
pub mod Relay
pub mod Deliver
pub mod Forward
pub mod Hook
pub mod Debugging
pub mod Message
pub mod Mailbox
mod Tests
