-- ===== src/Proxy/Tokens.antt =====
-- proxy-server/app/token_manager.py
pub mod Grants
pub mod Manager
pub mod Renewal
pub mod Stored
pub mod Kept
pub mod Environments
pub mod Background
pub mod Callers
