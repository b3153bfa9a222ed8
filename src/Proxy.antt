-- ===== src/Proxy.antt =====
-- proxy-server: the gateway to the invoice cloud.
pub mod Forwarder
pub mod RateLimit
pub mod Auth
pub mod Admin
pub mod Callbacks
pub mod RuntimeConfig
pub mod Kdcloud
pub mod Tokens
pub mod Endpoints
pub mod Clients
pub mod Service
