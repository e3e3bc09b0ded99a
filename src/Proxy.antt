-- ===== src/Proxy.antt =====
-- aiosmtpd/proxy_protocol.py: the header that a proxy sends before a client's first byte.
pub mod Data
pub mod Tlv
pub mod Attribs
pub mod Reading
pub mod V1
pub mod V2
pub mod Chunks
pub mod Filling
pub mod Headers
pub mod Lines
mod Tests
