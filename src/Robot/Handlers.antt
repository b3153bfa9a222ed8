-- ===== src/Robot/Handlers.antt =====
-- server/app/services/handlers: the four handlers.
pub mod Plates
pub mod PassCard
pub mod Mys4s
pub mod Echo
pub mod Api
pub mod Ai
