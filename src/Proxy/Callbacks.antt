-- ===== src/Proxy/Callbacks.antt =====
-- proxy-server/app/endpoints/callbacks.py
pub mod Flat
pub mod Persist
pub mod AutoForward
pub mod Agreement
pub mod Scheduling
