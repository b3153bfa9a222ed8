-- ===== src/Proxy/Endpoints.antt =====
-- proxy-server/app/endpoints: the requests that are passed on to the vendor.
pub mod Bills
pub mod Passing
