-- ===== src/Robot.antt =====
-- server/app: the robot behind the chat's webhook.
pub mod Config
pub mod Message
pub mod Outbound
pub mod Signature
pub mod Secret
pub mod Router
pub mod Storage
pub mod Processor
pub mod Webhook
pub mod Admin
pub mod Passes
pub mod TestSign
pub mod Service
pub mod Handlers
