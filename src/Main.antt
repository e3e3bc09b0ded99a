-- ===== src/Main.antt =====
-- The command line (aiosmtpd/main.py).
pub mod Listen
pub mod Arguments
pub mod Start
mod Tests
