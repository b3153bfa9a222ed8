-- ===== src/Examples.antt =====
-- The theorems at concrete inputs, and tests of the definitions.
mod Endpoints
mod Passes
mod Secrets
mod Samples
mod Forwarding
mod Callbacks
mod Access
mod Robots
mod Indexed
mod Clients
mod Administration
mod Service
mod Tools
