-- ===== src/Smtp.antt =====
-- aiosmtpd/smtp.py: the server's side of one connection.
pub mod State
pub mod Exec
pub mod Server
pub mod Sanitize
pub mod Init
pub mod Wire
pub mod Greeting
pub mod Basic
pub mod Auth
pub mod Address
pub mod Mail
pub mod Rcpt
pub mod Data
pub mod Judge
pub mod Client
pub mod Connection
pub mod Steps
pub mod Verdicts
pub mod Limits
pub mod Closing
pub mod Approval
pub mod Ordering
pub mod Ending
pub mod Examples
mod Tests
