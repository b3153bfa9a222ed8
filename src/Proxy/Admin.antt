-- ===== src/Proxy/Admin.antt =====
-- proxy-server/app/admin.py
pub mod Replay
pub mod Gate
pub mod Events
