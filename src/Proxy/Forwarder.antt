-- ===== src/Proxy/Forwarder.antt =====
-- proxy-server/app/forwarder.py
pub mod Payload
pub mod Send
pub mod Splitting
pub mod Outcome
pub mod Record
pub mod Envelope
